-- ===== src/Server/Tests.antt =====
-- A run of the server: a client connects and sends a byte, the alarm goes off, and its time is up.
use tiny_web_server_learning.Http.World.{set_user}
use tiny_web_server_learning.Prelude.{
  List, codes, ℕ, zero, suc, ◌<◌, ◌≡◌, ◌≢◌, refl, true, false, [], ◌∷◌, Option, none, some, arith,
  inr,
}
use tiny_web_server_learning.Prelude.Int.{◌+ℤ◌, ◌-ℤ◌}
use tiny_web_server_learning.Memory.{Run, ok, fault, store, write_bytes}
use tiny_web_server_learning.Http.Types.{HttpConn}
use tiny_web_server_learning.Http.Samples.{fresh_conn, sample_system}
use tiny_web_server_learning.Http.World.Epoll.{watches}
use tiny_web_server_learning.Http.Conn.{Row, init, init_parse_state, close_conn, initmysql_result}
use tiny_web_server_learning.Http.Transfer.{
  RecvResult, received, recv_again, writev_again, read_round, read_loop, read_once,
}
use tiny_web_server_learning.TimeHeap.{
  Timers, make_heap, add_timer, put_timer, resize, percolate_up, parent_of, adjust_timer, del_timer,
  expire_of, tick, tick_loop, call_back, pop_timer, percolate_down, smaller_child,
}
use tiny_web_server_learning.TimeHeap.Same.{times}
use tiny_web_server_learning.ThreadPool.{enqueue}
use tiny_web_server_learning.Server.State.{
  Server, set_conn, started, main_start, call_backs, cb_func,
}
use tiny_web_server_learning.Server.Handle.{
  EpollEvent, Answers, on_event, on_read, after_read, put_off, end_round, main_loop, run_events,
}
use tiny_web_server_learning.Server.Accept.{on_accept, take_on, new_timer, on_signals, on_signal}
use tiny_web_server_learning.Server.Watched.{Watched}
use tiny_web_server_learning.Server.Loop.{
  handles, Steps, start, step, Steps-Watched, end_round-closes,
}

abbrev no_timers : Timers
no_timers = record {
  at = λ p. record { expire = 0; cb_func = false; user_data = 0 };
  next = 0;
  deleted = [];
  timer_of = λ user. 0;
  called = [];
}

abbrev clients : ℕ → HttpConn
clients fd = record fresh_conn { read_buf = record { size = 8; at = λ i. 0 } }

-- The database has one user; the listening socket has descriptor 3, the pipe 4.
abbrev begun : Server
begun = started 3 4 ((codes "ann", codes "pw") ∷ []) clients no_timers

abbrev rows : Option (List Row)
rows = some ((some (codes "ann"), some (codes "pw")) ∷ [])

began : main_start 3 4 rows clients no_timers ≡ ok begun
unfolding main_start initmysql_result set_user
began = refl

-- A column that is NULL ends the program before its loop.
null_column_test : main_start 3 4 (some ((some (codes "ann"), none) ∷ [])) clients no_timers ≡ fault
unfolding main_start initmysql_result
null_column_test = refl

-- One byte, and no more for now.
abbrev one_byte : ℕ → ℕ → RecvResult
one_byte zero n = received (b'G' ∷ [])
one_byte (suc k) n = recv_again

abbrev at_time : ℕ → Answers
at_time now = record {
  now = now;
  accepted = some 7;
  signals = 14 ∷ [];
  recv = one_byte;
  writev = λ k. writev_again;
}

abbrev event_on : ℕ → EpollEvent
event_on fd = record { fd = fd; epollin = true; epollout = false; hup = false }

abbrev server_of : Option (Run Server) → Server
server_of (some (ok s)) = s
server_of _ = begun

abbrev accepted : Server
accepted = server_of (on_event 3 4 (at_time 100) (event_on 3) begun)

abbrev heard : Server
heard = server_of (on_event 3 4 (at_time 103) (event_on 7) accepted)

abbrev alarmed : Server
alarmed = server_of (on_event 3 4 (at_time 105) (event_on 4) heard)

alarmed-Steps : Steps sample_system 3 4 106 begun alarmed
unfolding started make_heap on_event on_accept take_on new_timer on_signals on_signal on_read
    after_read put_off init init_parse_state ◌+ℤ◌ add_timer put_timer resize percolate_up parent_of
    adjust_timer del_timer read_once read_loop read_round write_bytes store enqueue
alarmed-Steps =
    step
      (step (step start (handles (at_time 100) (event_on 3) (omega arith) refl (inr refl) refl))
        (handles (at_time 103) (event_on 7) (omega arith) refl (inr refl) refl))
      (handles (at_time 105) (event_on 4) (omega arith) refl (inr refl) refl)

Steps-Watched_example :
    Watched 3 4 106 alarmed
    × ((fd : ℕ)
        → fd ≢ 3
        → fd ≢ 4
        → watches fd alarmed.world.epoll ≡ true
        → times (alarmed.timers.timer_of fd) alarmed.timers.deleted ≡ 0)
Steps-Watched_example =
    Steps-Watched sample_system 3 4 106 rows clients no_timers begun alarmed began alarmed-Steps

end_round-closes_example :
    (watches 7 (end_round 121 alarmed).world.epoll ≡ false)
    × (times 7 alarmed.world.closed < times 7 (end_round 121 alarmed).world.closed)
unfolding started make_heap on_event on_accept take_on new_timer on_signals on_signal on_read
    after_read put_off init init_parse_state ◌+ℤ◌ add_timer put_timer resize percolate_up parent_of
    adjust_timer del_timer read_once read_loop read_round write_bytes store enqueue
end_round-closes_example =
    end_round-closes sample_system 3 4 106 rows clients no_timers begun alarmed 121 7 began
      alarmed-Steps refl (λ e. absurd (omega (arith, e))) (λ e. absurd (omega (arith, e))) refl
      (omega arith)

-- The same run as three rounds of main's loop: the client has been closed.
main_loop_test :
    (server_of (
      main_loop 3 4
        (record { events = some ((at_time 100, event_on 3) ∷ []); cur = 100 }
          ∷ record { events = some ((at_time 103, event_on 7) ∷ []); cur = 103 }
          ∷ record { events = some ((at_time 118, event_on 4) ∷ []); cur = 118 }
          ∷ [])
        begun)).world.closed
    ≡ 7 ∷ []
unfolding started make_heap on_event on_accept take_on new_timer on_signals on_signal on_read
    after_read put_off init init_parse_state ◌+ℤ◌ ◌-ℤ◌ add_timer put_timer resize percolate_up
    parent_of adjust_timer del_timer read_once read_loop read_round write_bytes store enqueue
    main_loop run_events end_round tick tick_loop call_back pop_timer percolate_down smaller_child
    call_backs cb_func
main_loop_test = refl

-- A worker closes the connection 7, as process does without an answer, and leaves its timer in the
-- heap; another client gets the descriptor, and is closed when the first one's time is up, 9
-- seconds before its own.
abbrev reused : Server
reused =
    let (c, w) = close_conn accepted.world (accepted.users 7) in
    server_of
      (on_event 3 4 (at_time 109) (event_on 3) (record (set_conn 7 c accepted) { world = w }))

stale_timer_test :
    let s = end_round 115 (record reused { timeout = true }) in
    (watches 7 reused.world.epoll ≡ true)
    × (expire_of reused.timers (reused.timers.timer_of 7) ≡ 124)
    × (watches 7 s.world.epoll ≡ false)
unfolding close_conn started make_heap on_event on_accept take_on new_timer on_signals on_signal
    on_read after_read put_off init init_parse_state ◌+ℤ◌ ◌-ℤ◌ add_timer put_timer resize
    percolate_up parent_of adjust_timer del_timer read_once read_loop read_round write_bytes store
    enqueue end_round tick tick_loop call_back pop_timer percolate_down smaller_child call_backs
    cb_func
stale_timer_test = (refl, refl, refl)
