-- ===== src/Server/Loop.antt =====
-- Runs of the server of src/server_epoll.cpp: events, ends of rounds and turns of the workers, in any
-- order.
use tiny_web_server_learning.Prelude.{
  ℕ, ◌+◌, ◌≤◌, ◌<◌, ◌≡◌, ◌≢◌, refl, subst, true, false, List, [], ◌∷◌, Option, some, arith, inl,
  inr, Bool-cases, ◌⊎◌,
}
use tiny_web_server_learning.Memory.{Run, ok, fault, ◌>>=◌, ok-injective}
use tiny_web_server_learning.Memory.Partial.{allows}
use tiny_web_server_learning.Http.Types.{HttpConn}
use tiny_web_server_learning.Http.World.{Users, System, epoll_add}
use tiny_web_server_learning.Http.World.Epoll.{watches}
use tiny_web_server_learning.Http.Conn.{Row, initmysql_result}
use tiny_web_server_learning.TimeHeap.{Timers, make_heap}
use tiny_web_server_learning.TimeHeap.Owned.{Owned-alive}
use tiny_web_server_learning.TimeHeap.Same.{times}
use tiny_web_server_learning.Server.State.{Server, started, main_start, call_backs}
use tiny_web_server_learning.Server.Handle.{EpollEvent, Answers, on_event, end_round, work}
use tiny_web_server_learning.Server.Watched.{Watched}
use tiny_web_server_learning.Server.Events.{Ended, ended, on_event-Watched}
use tiny_web_server_learning.Server.Rounds.{
  called, called-due, closed_after, watched_after, end_round-Watched, work-Watched,
}

-- A step of the main loop or of a worker that ends without a fault, where the events read no time
-- past `latest`. The epoll instance reports
-- events of the descriptors that are on it, and of the pipe only that it can be read.
pub data Step (sys : System) (server_fd pipe_fd latest : ℕ) (s : Server) : Server → Type 0 where
  handles :
      (a : Answers) (event : EpollEvent) {t : Server}
      → a.now ≤ latest
      → watches event.fd s.world.epoll ≡ true
      → (event.fd ≢ pipe_fd) ⊎ (event.epollin ≡ true)
      → on_event server_fd pipe_fd a event s ≡ some (ok t)
      → Step sys server_fd pipe_fd latest s t
  ends_round : (cur : ℕ) → Step sys server_fd pipe_fd latest s (end_round cur s)
  works : {t : Server} → work sys s ≡ some (ok t) → Step sys server_fd pipe_fd latest s t

pub data Steps (sys : System) (server_fd pipe_fd latest : ℕ) (s : Server) : Server → Type 0 where
  start : Steps sys server_fd pipe_fd latest s s
  step :
      {t u : Server}
      → Steps sys server_fd pipe_fd latest s t
      → Step sys server_fd pipe_fd latest t u
      → Steps sys server_fd pipe_fd latest s u

Ended-result :
    {P : Server → Type 0} {r : Option (Run Server)} {t : Server} → Ended P r → r ≡ some (ok t) → P t
Ended-result {P} {r} {t} e h = from (subst (Ended P) h e)
  where
    from : Ended P (some (ok t)) → P t
    from (ended (allows p)) = p

module _ (sys : System) (server_fd pipe_fd latest : ℕ) where
  start-Watched :
      (known : Users) (users : ℕ → HttpConn) (timers : Timers)
      → Watched server_fd pipe_fd latest (started server_fd pipe_fd known users timers)
  unfolding started make_heap
  start-Watched known users timers = record {
    sound = record {
      order = λ i p l. absurd (omega (arith, l));
      known = λ i l. absurd (omega (arith, l));
      room = omega arith;
      nonempty = omega arith;
      inside = refl;
    };
    owned = record { once = λ p. omega arith; made = λ p l. refl };
    live = λ fd ns np h. absurd (nobody fd ns np h);
  }
    where
      nobody :
          (fd : ℕ)
          → fd ≢ server_fd
          → fd ≢ pipe_fd
          → watches fd (epoll_add pipe_fd ∷ (epoll_add server_fd ∷ [])) ≡ true
          → ⊥
      nobody fd ns np h = ground (arith, h, ns, np)

  main_start-Watched :
      (rows : Option (List Row)) (users : ℕ → HttpConn) (timers : Timers) (first : Server)
      → main_start server_fd pipe_fd rows users timers ≡ ok first
      → Watched server_fd pipe_fd latest first
  unfolding main_start
  main_start-Watched rows users timers first began = known_users (initmysql_result rows []) began
    where
      known_users :
          (r : Run Users)
          → (r >>= λ known. ok (started server_fd pipe_fd known users timers)) ≡ ok first
          → Watched server_fd pipe_fd latest first
      known_users (ok known) e =
          subst (Watched server_fd pipe_fd latest) (ok-injective e)
            (start-Watched known users timers)
      known_users fault e = cc

  Step-Watched :
      {s t : Server}
      → Watched server_fd pipe_fd latest s
      → Step sys server_fd pipe_fd latest s t
      → Watched server_fd pipe_fd latest t
  Step-Watched {s} w (handles a event early on pipe ran) =
      Ended-result (on_event-Watched server_fd pipe_fd latest a event s early w on pipe) ran
  Step-Watched {s} w (ends_round cur) = end_round-Watched server_fd pipe_fd latest cur s w
  Step-Watched {s} w (works ran) = Ended-result (work-Watched server_fd pipe_fd latest sys s w) ran

  Steps-kept :
      {s t : Server}
      → Watched server_fd pipe_fd latest s
      → Steps sys server_fd pipe_fd latest s t
      → Watched server_fd pipe_fd latest t
  Steps-kept w start = w
  Steps-kept w (step before last) = Step-Watched (Steps-kept w before) last

-- From the start of main's loop on, whatever events come that read no time past `latest`, however the
-- rounds end and the workers take turns between them: the heap of the timers is in order, its array
-- is not overrun, and no timer in it was deleted or is in it twice; and every connection on the epoll
-- instance has its descriptor, and a timer of its own that is in the heap, has its callback and
-- expires at most 15 seconds after `latest`; so the timer that its descriptor leads to was not
-- deleted.
pub Steps-Watched :
    (sys : System) (server_fd pipe_fd latest : ℕ) (rows : Option (List Row)) (users : ℕ → HttpConn)
    (timers : Timers) (first s : Server)
    → main_start server_fd pipe_fd rows users timers ≡ ok first
    → Steps sys server_fd pipe_fd latest first s
    → Watched server_fd pipe_fd latest s
      × ((fd : ℕ)
          → fd ≢ server_fd
          → fd ≢ pipe_fd
          → watches fd s.world.epoll ≡ true
          → times (s.timers.timer_of fd) s.timers.deleted ≡ 0)
Steps-Watched sys server_fd pipe_fd latest rows users timers first s began steps =
    let w : Watched server_fd pipe_fd latest s =
      Steps-kept sys server_fd pipe_fd latest
        (main_start-Watched sys server_fd pipe_fd latest rows users timers first began) steps in
    (
      w,
      λ fd ns np on.
          Owned-alive s.timers s.timer_lst (s.timers.timer_of fd) w.owned
            (w.live fd ns np on).pending,
    )

-- Where no event has read a time past `latest` and the alarm has gone off, the end of a round that
-- reads a time at least 15 seconds past `latest` takes every connection that is still on the epoll
-- instance off it, and closes its descriptor.
pub end_round-closes :
    (sys : System) (server_fd pipe_fd latest : ℕ) (rows : Option (List Row)) (users : ℕ → HttpConn)
    (timers : Timers) (first s : Server) (cur fd : ℕ)
    → main_start server_fd pipe_fd rows users timers ≡ ok first
    → Steps sys server_fd pipe_fd latest first s
    → s.timeout ≡ true
    → fd ≢ server_fd
    → fd ≢ pipe_fd
    → watches fd s.world.epoll ≡ true
    → latest + 15 ≤ cur
    → (watches fd (end_round cur s).world.epoll ≡ false)
      × (times fd s.world.closed < times fd (end_round cur s).world.closed)
unfolding end_round
end_round-closes sys server_fd pipe_fd latest rows users timers first s cur fd began steps alarm ns
      np watched due =
    let w = (Steps-Watched sys server_fd pipe_fd latest rows users timers first s began steps).0 in
    let calls = called-due server_fd pipe_fd latest cur s w fd (w.live fd ns np watched) due in
    let l = called server_fd pipe_fd latest cur s w in
    let off : watches fd (call_backs l s.world).epoll ≡ false =
      elim (Bool-cases (watches fd (call_backs l s.world).epoll)) [
        | inl on ↦ absurd (omega (arith, (watched_after fd l s.world on).0, calls))
        | inr off ↦ off
      ] in
    rw alarm (off, omega (arith, closed_after fd l s.world, calls))
