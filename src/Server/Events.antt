-- ===== src/Server/Events.antt =====
-- The events, the end of a round and the workers of src/server_epoll.cpp keep the connections
-- watched by live timers.
use tiny_web_server_learning.Prelude.{
  ℕ, ◌≤◌, ◌≡◌, ◌≢◌, refl, Bool, true, false, ◌&&◌, Option, none, some, arith, ltb, ◌==◌,
  if◌then◌else◌, inl, inr, ◌⊎◌,
}
use tiny_web_server_learning.Memory.{Run, ok, fault, ◌>>=◌}
use tiny_web_server_learning.Memory.Partial.{Allows, allows, faults, Allows-if}
use tiny_web_server_learning.Http.Types.{HttpConn}
use tiny_web_server_learning.Http.World.{World}
use tiny_web_server_learning.Http.World.Epoll.{watches}
use tiny_web_server_learning.Http.Transfer.{
  RecvResult, WritevResult, read_once, write, Reading, Writing,
}
use tiny_web_server_learning.Http.Transfer.Socket.{read_once-sockfd, write-Unmoved}
use tiny_web_server_learning.Server.State.{Server, set_conn, max_fd}
use tiny_web_server_learning.Server.Handle.{
  after_read, on_read, after_write, on_write, on_hang_up, on_event, EpollEvent, Answers,
}
use tiny_web_server_learning.Server.Watched.{Live, Watched}
use tiny_web_server_learning.Server.Keeps.{
  same-Watched, on_accept-Watched, on_signals-Watched, moved-Live, moved-Watched, put_off-Watched,
  drop_conn-Watched,
}

-- The run has not ended, or it ends in a server that has the property.
pub data Ended (P : Server → Type 0) : Option (Run Server) → Type 0 where
  no_fuel : Ended P none
  ended : {r : Run Server} → Allows P r → Ended P (some r)

Ended-if :
    {P : Server → Type 0} {x y : Option (Run Server)} (b : Bool)
    → (b ≡ true → Ended P x)
    → (b ≡ false → Ended P y)
    → Ended P (if b then x else y)
Ended-if true p q = p refl
Ended-if false p q = q refl

module _ (server_fd pipe_fd latest : ℕ) where
  abbrev W : Server → Type 0
  W = Watched server_fd pipe_fd latest

  module _ (fd : ℕ) (s : Server) (w : W s)
      (l : Live latest fd (s.users fd) s.timers s.timer_lst) where
    after_read-Watched :
        (now : ℕ) (x : Bool × HttpConn)
        → now ≤ latest
        → x.1.sockfd ≡ (s.users fd).sockfd
        → W (after_read now fd x s)
    unfolding after_read
    after_read-Watched now (true, c) early same =
        let v = moved-Watched server_fd pipe_fd latest fd c s.world s w l same λ g. refl in
        let k = moved-Live server_fd pipe_fd latest fd c s.world s w l same λ g. refl in
        let off = put_off-Watched server_fd pipe_fd latest fd (set_conn fd c s) v k now early in
        same-Watched server_fd pipe_fd latest _ _ off refl refl refl refl
    after_read-Watched now (false, c) early same =
        drop_conn-Watched server_fd pipe_fd latest fd (set_conn fd c s)
          (moved-Watched server_fd pipe_fd latest fd c s.world s w l same λ g. refl)
          (moved-Live server_fd pipe_fd latest fd c s.world s w l same λ g. refl)

    on_read-Watched :
        (now : ℕ) (recv : ℕ → ℕ → RecvResult) → now ≤ latest → Ended W (on_read now recv fd s)
    unfolding on_read
    on_read-Watched now recv early =
        Ended-if (ltb fd max_fd) (λ inside. read (read_once recv (s.users fd)) refl)
          λ out. ended faults
      where
        read :
            (r : Reading)
            → read_once recv (s.users fd) ≡ r
            → Ended W
                (elim r [ none ↦ none | some m ↦ some (m >>= λ x. ok (after_read now fd x s)) ])
        read none e = no_fuel
        read (some fault) e = ended faults
        read (some (ok (good, c))) e = ended (
            allows (
              after_read-Watched now (good, c) early (read_once-sockfd recv (s.users fd) c good e)))

    after_write-Watched :
        (now : ℕ) (x : Bool × HttpConn × World)
        → now ≤ latest
        → x.1.sockfd ≡ (s.users fd).sockfd
        → ((g : ℕ) → watches g x.2.epoll ≡ watches g s.world.epoll)
        → W (after_write now fd x s)
    unfolding after_write
    after_write-Watched now (true, c, v) early same calls =
        put_off-Watched server_fd pipe_fd latest fd (record (set_conn fd c s) { world = v })
          (moved-Watched server_fd pipe_fd latest fd c v s w l same calls)
          (moved-Live server_fd pipe_fd latest fd c v s w l same calls) now early
    after_write-Watched now (false, c, v) early same calls =
        drop_conn-Watched server_fd pipe_fd latest fd (record (set_conn fd c s) { world = v })
          (moved-Watched server_fd pipe_fd latest fd c v s w l same calls)
          (moved-Live server_fd pipe_fd latest fd c v s w l same calls)

    on_write-Watched :
        (now : ℕ) (writev : ℕ → WritevResult) → now ≤ latest → Ended W (on_write now writev fd s)
    unfolding on_write
    on_write-Watched now writev early =
        Ended-if (ltb fd max_fd) (λ inside. wrote (write writev s.world (s.users fd)) refl)
          λ out. ended faults
      where
        wrote :
            (r : Writing)
            → write writev s.world (s.users fd) ≡ r
            → Ended W (elim r [ none ↦ none | some x ↦ some (ok (after_write now fd x s)) ])
        wrote none e = no_fuel
        wrote (some (good, c, v)) e =
            let u = write-Unmoved writev s.world v (s.users fd) c good e in
            ended (allows (after_write-Watched now (good, c, v) early u.socket u.watched))

    on_hang_up-Watched : Allows W (on_hang_up fd s)
    unfolding on_hang_up
    on_hang_up-Watched =
        Allows-if (ltb fd max_fd) (allows (drop_conn-Watched server_fd pipe_fd latest fd s w l))
          faults

  pub on_event-Watched :
      (a : Answers) (event : EpollEvent) (s : Server)
      → a.now ≤ latest
      → W s
      → watches event.fd s.world.epoll ≡ true
      → (event.fd ≢ pipe_fd) ⊎ (event.epollin ≡ true)
      → Ended W (on_event server_fd pipe_fd a event s)
  unfolding on_event
  on_event-Watched a event s early w watched pipe_in =
      Ended-if (event.fd == server_fd)
        (λ _. ended (on_accept-Watched server_fd pipe_fd latest a.now a.accepted s early w))
        λ not_server.
          Ended-if (event.fd == pipe_fd && event.epollin)
            (λ _. ended (allows (on_signals-Watched server_fd pipe_fd latest a.signals s w)))
            λ not_pipe.
              let l =
                w.live event.fd (other event.fd server_fd not_server)
                  (not_the_pipe pipe_in not_pipe) watched in
              Ended-if event.epollin (λ _. on_read-Watched event.fd s w l a.now a.recv early)
                λ _.
                  Ended-if event.epollout
                    (λ _. on_write-Watched event.fd s w l a.now a.writev early)
                    λ _.
                      Ended-if event.hup (λ _. ended (on_hang_up-Watched event.fd s w l))
                        λ _. ended (allows w)
    where
      other : (x y : ℕ) → (x == y) ≡ false → x ≢ y
      other x y e = ground (arith, e)

      not_the_pipe :
          (event.fd ≢ pipe_fd) ⊎ (event.epollin ≡ true)
          → (event.fd == pipe_fd && event.epollin) ≡ false
          → event.fd ≢ pipe_fd
      not_the_pipe (inl ne) e = ne
      not_the_pipe (inr reads) e = λ same. ground (arith, e, reads, same)
