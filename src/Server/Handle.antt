-- ===== src/Server/Handle.antt =====
-- The other events of the main loop of src/server_epoll.cpp, the loop, and the workers.
use tiny_web_server_learning.Prelude.{
  ℕ, Bool, true, false, ◌&&◌, List, [], ◌∷◌, Option, none, some, ltb, ◌==◌, if◌then◌else◌,
}
use tiny_web_server_learning.Memory.{Run, ok, fault, ◌>>=◌, and_then}
use tiny_web_server_learning.Http.Types.{HttpConn}
use tiny_web_server_learning.Http.World.{World, System}
use tiny_web_server_learning.Http.Conn.{close_conn, process}
use tiny_web_server_learning.Http.Transfer.{RecvResult, WritevResult, read_once, write}
use tiny_web_server_learning.TimeHeap.{del_timer, adjust_timer, tick}
use tiny_web_server_learning.ThreadPool.{enqueue, turn, runs, sleeps, exits}
use tiny_web_server_learning.Server.State.{Server, max_fd, set_conn, call_backs}
use tiny_web_server_learning.Server.Accept.{on_accept, on_signals}

-- The read or the write went well: the timer is put off.
unfoldable pub put_off : ℕ → ℕ → Server → Server
put_off now fd s =
    let (ts, h) = adjust_timer now (s.timers.timer_of fd) s.timers s.timer_lst in
    record s { timers = ts; timer_lst = h }

-- It failed, or the other side has hung up: the timer loses its callback, and the connection is
-- closed.
unfoldable pub drop_conn : ℕ → Server → Server
drop_conn fd s =
    let (c, w) = close_conn s.world (s.users fd) in
    record (set_conn fd c s) { world = w; timers = del_timer (s.timers.timer_of fd) s.timers }

unfoldable pub after_read : ℕ → ℕ → Bool × HttpConn → Server → Server
unfolding put_off drop_conn
after_read now fd (true, c) s =
    let t = put_off now fd (set_conn fd c s) in record t { pool = enqueue fd t.pool }
after_read now fd (false, c) s = drop_conn fd (set_conn fd c s)

-- `none` where the loop of read_once has no fuel left.
unfoldable pub on_read : ℕ → (ℕ → ℕ → RecvResult) → ℕ → Server → Option (Run Server)
unfolding after_read
on_read now recv fd s =
    if ltb fd max_fd
    then (elim (read_once recv (s.users fd)) [
      | none ↦ none
      | some r ↦ some (r >>= λ x. ok (after_read now fd x s))
    ])
    else some fault

unfoldable pub after_write : ℕ → ℕ → Bool × HttpConn × World → Server → Server
unfolding put_off drop_conn
after_write now fd (true, c, w) s = put_off now fd (record (set_conn fd c s) { world = w })
after_write now fd (false, c, w) s = drop_conn fd (record (set_conn fd c s) { world = w })

unfoldable pub on_write : ℕ → (ℕ → WritevResult) → ℕ → Server → Option (Run Server)
unfolding after_write
on_write now writev fd s =
    if ltb fd max_fd
    then (elim (write writev s.world (s.users fd)) [
      | none ↦ none
      | some x ↦ some (ok (after_write now fd x s))
    ])
    else some fault

unfoldable pub on_hang_up : ℕ → Server → Run Server
unfolding drop_conn
on_hang_up fd s = if ltb fd max_fd then ok (drop_conn fd s) else fault

-- An event: its descriptor, and which of the flags EPOLLIN, EPOLLOUT, and EPOLLRDHUP, EPOLLHUP or
-- EPOLLERR are set.
pub record EpollEvent : Type 0 where
  pub fd : ℕ
  pub epollin : Bool
  pub epollout : Bool
  pub hup : Bool

-- What the system answers while an event is handled: time, accept, recv from the pipe, recv and
-- writev.
pub record Answers : Type 0 where
  pub now : ℕ
  pub accepted : Option ℕ
  pub signals : List ℕ
  pub recv : ℕ → ℕ → RecvResult
  pub writev : ℕ → WritevResult

-- The body of the loop over the events; the listening socket and the pipe have descriptors of their
-- own.
unfoldable pub on_event : ℕ → ℕ → Answers → EpollEvent → Server → Option (Run Server)
unfolding on_accept on_signals on_read on_write on_hang_up
on_event server_fd pipe_fd a event s =
    if event.fd == server_fd
    then some (on_accept a.now a.accepted s)
    else if event.fd == pipe_fd && event.epollin
    then some (ok (on_signals a.signals s))
    else if event.epollin
    then on_read a.now a.recv event.fd s
    else if event.epollout
    then on_write a.now a.writev event.fd s
    else if event.hup
    then some (on_hang_up event.fd s)
    else some (ok s)

-- What follows the events of a round: the timers that have expired call back.
unfoldable pub end_round : ℕ → Server → Server
unfolding call_backs
end_round cur s =
    if s.timeout
    then (let (ts, h) = tick cur (record s.timers { called = [] }) s.timer_lst in
        record s {
          world = call_backs ts.called s.world;
          timers = ts;
          timer_lst = h;
          timeout = false;
        })
    else s

abbrev pub go_on : Option (Run Server) → (Server → Option (Run Server)) → Option (Run Server)
go_on none next = none
go_on (some r) next = and_then r next

-- The loop over the events of a round.
unfoldable pub run_events : ℕ → ℕ → List (Answers × EpollEvent) → Server → Option (Run Server)
unfolding on_event
run_events server_fd pipe_fd [] s = some (ok s)
run_events server_fd pipe_fd ((a, event) ∷ rest) s =
    go_on (on_event server_fd pipe_fd a event s) (run_events server_fd pipe_fd rest)

-- What a round is given: the events of epoll_wait, or none for an error other than EINTR, and what
-- time returns behind them.
pub record Round : Type 0 where
  pub events : Option (List (Answers × EpollEvent))
  pub cur : ℕ

-- The loop of main, on the rounds that it is given.
unfoldable pub main_loop : ℕ → ℕ → List Round → Server → Option (Run Server)
unfolding run_events end_round
main_loop server_fd pipe_fd [] s = some (ok s)
main_loop server_fd pipe_fd (r ∷ rest) s =
    let next = λ (t : Server). main_loop server_fd pipe_fd rest (end_round r.cur t) in
    if s.stop_server then some (ok s) else (elim r.events [
      | none ↦ some (ok s)
      | some events ↦ go_on (run_events server_fd pipe_fd events s) next
    ])

-- A worker's turn: it takes a descriptor, and calls process. `none` where the worker sleeps or
-- ends, or the loop of process_read has no fuel left.
unfoldable pub work : System → Server → Option (Run Server)
work sys s = elim (turn s.pool) [
  | sleeps ↦ none
  | exits ↦ none
  | runs fd p ↦ elim (process sys s.world (s.users fd)) [
    | none ↦ none
    | some r ↦ some (r >>= λ (c, w). ok (record (set_conn fd c s) { world = w; pool = p }))
  ]
]
