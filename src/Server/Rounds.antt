-- ===== src/Server/Rounds.antt =====
-- The end of a round of src/server_epoll.cpp, where the timers call back, and the workers.
use tiny_web_server_learning.Prelude.{
  ℕ, ◌+◌, ◌≤◌, ◌<◌, ◌≡◌, refl, sym, ◌∙◌, ap, Bool, true, false, List, [], ◌∷◌, Option, none, some,
  arith, if◌then◌else◌, inl, inr,
}
use tiny_web_server_learning.Memory.{Run, ok, fault, ◌>>=◌}
use tiny_web_server_learning.Memory.Partial.{allows, faults}
use tiny_web_server_learning.Http.Types.{HttpConn}
use tiny_web_server_learning.Http.World.{World, System, epoll_del}
use tiny_web_server_learning.Http.World.Epoll.{watches}
use tiny_web_server_learning.Http.Conn.{process}
use tiny_web_server_learning.Http.Conn.Settle.{Settled, asks_in, asks_out, shuts, process-Settled}
use tiny_web_server_learning.TimeHeap.{Timers, tick}
use tiny_web_server_learning.TimeHeap.Order.{same_or_not}
use tiny_web_server_learning.TimeHeap.Pending.{Sound}
use tiny_web_server_learning.TimeHeap.Tick.{tick-Later}
use tiny_web_server_learning.TimeHeap.Same.{times}
use tiny_web_server_learning.TimeHeap.Kept.{one}
use tiny_web_server_learning.TimeHeap.Owned.{Owned-same, tick-Owned}
use tiny_web_server_learning.ThreadPool.{ThreadPool, Turn, turn, runs, sleeps, exits}
use tiny_web_server_learning.Server.State.{Server, set_conn, cb_func, call_backs}
use tiny_web_server_learning.Server.Handle.{end_round, work}
use tiny_web_server_learning.Server.Watched.{Live, Live-Spares, Watched}
use tiny_web_server_learning.Server.Expiry.{tick-due, tick-Spares}
use tiny_web_server_learning.Server.Keeps.{
  set_conn-eq, set_conn-ne, watches-del, watches-del_itself, true_not_false, change-Watched,
}
use tiny_web_server_learning.Server.Events.{Ended, no_fuel, ended}

-- Who is called back is off the instance, and who is still on it was not called.
pub watched_after :
    (g : ℕ) (l : List ℕ) (w : World)
    → watches g (call_backs l w).epoll ≡ true
    → (times g l ≡ 0) × (watches g w.epoll ≡ true)
unfolding call_backs cb_func
watched_after g [] w h = (refl, h)
watched_after g (fd ∷ l) w h = elim (same_or_not g fd) [
  | inl here ↦ true_not_false h (
      ap (λ f. watches f (epoll_del (some fd) ∷ (call_backs l w).epoll)) here
      ∙ watches-del_itself fd (call_backs l w).epoll)
  | inr away ↦
      let (few, before) =
        watched_after g l w (sym (watches-del g fd (call_backs l w).epoll away) ∙ h) in
      let other : one g fd ≡ 0 = ground arith in (omega (arith, few, other), before)
]

some-injective : {x y : ℕ} → some x ≡ some y → x ≡ y
some-injective e = cc

pub closed_after :
    (g : ℕ) (l : List ℕ) (w : World)
    → times g (call_backs l w).closed ≡ times g l + times g w.closed
unfolding call_backs cb_func
closed_after g [] w = omega arith
closed_after g (fd ∷ l) w = omega (arith, closed_after g l w)

module _ (server_fd pipe_fd latest : ℕ) where
  abbrev W : Server → Type 0
  W = Watched server_fd pipe_fd latest

  module _ (cur : ℕ) (s : Server) (w : W s) where
    -- The timers with no calls counted yet.
    abbrev pub uncalled : Timers
    uncalled = record s.timers { called = [] }

    abbrev pub called : List ℕ
    called = (tick cur uncalled s.timer_lst).0.called

    uncalled-Sound : Sound uncalled s.timer_lst
    uncalled-Sound = record {
      order = w.sound.order;
      known = w.sound.known;
      room = w.sound.room;
      nonempty = w.sound.nonempty;
      inside = w.sound.inside;
    }

    uncalled-Live :
        (fd : ℕ) (c : HttpConn)
        → Live latest fd c s.timers s.timer_lst
        → Live latest fd c uncalled s.timer_lst
    uncalled-Live fd c l = record {
      socket = l.socket;
      callback = l.callback;
      owner = l.owner;
      pending = l.pending;
      made = l.made;
      soon = l.soon;
    }

    abbrev pub ticked : Server
    ticked = record s {
      world = call_backs called s.world;
      timers = (tick cur uncalled s.timer_lst).0;
      timer_lst = (tick cur uncalled s.timer_lst).1;
      timeout = false;
    }

    ticked-Watched : W ticked
    ticked-Watched = record {
      sound = (tick-Later cur uncalled s.timer_lst uncalled-Sound).sound;
      owned =
          tick-Owned cur uncalled s.timer_lst
            (Owned-same s.timers uncalled s.timer_lst w.owned refl refl);
      live = λ g ns np h.
          let (quiet, before) = watched_after g called s.world h in
          let l = uncalled-Live g (s.users g) (w.live g ns np before) in
          Live-Spares latest g (s.users g) (s.users g) uncalled (tick cur uncalled s.timer_lst).0
            s.timer_lst (tick cur uncalled s.timer_lst).1 l refl
            (tick-Spares latest cur g (s.users g) uncalled s.timer_lst uncalled-Sound l quiet);
    }

    -- Once 15 seconds have passed, a connection is called back.
    pub called-due :
        (fd : ℕ)
        → Live latest fd (s.users fd) s.timers s.timer_lst
        → latest + 15 ≤ cur
        → 0 < times fd called
    called-due fd l due =
        tick-due latest cur fd (s.users fd) uncalled s.timer_lst uncalled-Sound
          (uncalled-Live fd (s.users fd) l) (omega (arith, l.soon, due))

    pub end_round-Watched : W (end_round cur s)
    unfolding end_round
    end_round-Watched = either s.timeout ticked-Watched w
      where
        either : {t u : Server} (b : Bool) → W t → W u → W (if b then t else u)
        either true p q = p
        either false p q = q

  serve-Watched :
      (fd : ℕ) (s : Server) (p : ThreadPool ℕ) (c : HttpConn) (v : World)
      → W s
      → Settled (s.users fd) s.world c v
      → W (record (set_conn fd c s) { world = v; pool = p })
  serve-Watched fd s p c v w settled =
      change-Watched server_fd pipe_fd latest fd s _ w w.sound w.owned
        (λ g ne. ap (λ d. d.sockfd) (set_conn-ne fd g c s ne)) (λ g ne h. (on_before g settled h).0)
        (λ g ne l. record {
          pointer = refl;
          timer = refl;
          in_heap = omega arith;
          more = omega arith;
        })
        λ ns np h.
          let (before, keeps) = on_before fd settled h in
          let l = w.live fd ns np before in
          Live-Spares latest fd (s.users fd) _ s.timers s.timers s.timer_lst s.timer_lst l
            (ap (λ d. d.sockfd) (set_conn-eq fd c s) ∙ keeps l.socket)
            (record { pointer = refl; timer = refl; in_heap = omega arith; more = omega arith })
    where
      -- Who is on the instance was on it, and if that is the user of `fd`, it has its descriptor.
      on_before :
          (g : ℕ)
          → Settled (s.users fd) s.world c v
          → watches g v.epoll ≡ true
          → (watches g s.world.epoll ≡ true)
            × ((s.users fd).sockfd ≡ some g → c.sockfd ≡ (s.users fd).sockfd)
      on_before g (asks_in f same calls) h = (ap (watches g) (sym calls) ∙ h, λ e. same)
      on_before g (asks_out f same calls) h = (ap (watches g) (sym calls) ∙ h, λ e. same)
      on_before g (shuts f had same calls) h = elim (same_or_not g f) [
        | inl here ↦ true_not_false h (
            ap (watches g) calls
            ∙ ap (λ k. watches k (epoll_del (some f) ∷ s.world.epoll)) here
            ∙ watches-del_itself f s.world.epoll)
        | inr away ↦ (
          sym (watches-del g f s.world.epoll away) ∙ ap (watches g) (sym calls) ∙ h,
          λ e. absurd (away (some-injective (sym e ∙ had))),
        )
      ]

  pub work-Watched : (sys : System) (s : Server) → W s → Ended W (work sys s)
  unfolding work
  work-Watched sys s w = turned (turn s.pool)
    where
      served :
          (fd : ℕ) (p : ThreadPool ℕ) (r : Option (Run (HttpConn × World)))
          → process sys s.world (s.users fd) ≡ r
          → Ended W (elim r [
            | none ↦ none
            | some m ↦ some (m >>= λ (c, v). ok (record (set_conn fd c s) { world = v; pool = p }))
          ])
      served fd p none e = no_fuel
      served fd p (some fault) e = ended faults
      served fd p (some (ok (c, v))) e =
          ended
            (allows (serve-Watched fd s p c v w (process-Settled sys s.world v (s.users fd) c e)))

      turned :
          (t : Turn ℕ)
          → Ended W (elim t [
            | sleeps ↦ none
            | exits ↦ none
            | runs fd p ↦ elim (process sys s.world (s.users fd)) [
              | none ↦ none
              | some m ↦
                  some (m >>= λ (c, v). ok (record (set_conn fd c s) { world = v; pool = p }))
            ]
          ])
      turned sleeps = no_fuel
      turned exits = no_fuel
      turned (runs fd p) = served fd p (process sys s.world (s.users fd)) refl
