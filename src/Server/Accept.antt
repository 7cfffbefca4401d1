-- ===== src/Server/Accept.antt =====
-- The listening socket and the pipe in the main loop of src/server_epoll.cpp.
use tiny_web_server_learning.Prelude.{
  ℕ, suc, ◌+◌, ◌*◌, true, List, [], ◌∷◌, Option, none, some, ltb, ◌==◌, if◌then◌else◌,
}
use tiny_web_server_learning.Prelude.Int.{pos, ltb_ℤ}
use tiny_web_server_learning.Memory.{Run, ok, fault}
use tiny_web_server_learning.Http.Conn.{init}
use tiny_web_server_learning.TimeHeap.{Timers, set_at, set_timer, add_timer}
use tiny_web_server_learning.Server.State.{Server, max_fd, timeslot, set_conn}

-- new util_timer for the user of descriptor `fd`
unfoldable pub new_timer : ℕ → ℕ → Timers → Timers
new_timer cur fd ts = record ts {
  at =
      set_timer ts.at ts.next
        (record { expire = cur + 3 * timeslot; cb_func = true; user_data = fd });
  next = suc ts.next;
  timer_of = set_at ts.timer_of fd ts.next;
}

-- A new connection that is taken on; `users[connfd]` may be out of bounds.
unfoldable pub take_on : ℕ → ℕ → Server → Run Server
unfolding new_timer
take_on cur connfd s =
    if ltb connfd max_fd
    then (let (c, w) = init s.world (s.users connfd) connfd in
        let timer = s.timers.next in
        let ts = new_timer cur connfd s.timers in
        ok (record (set_conn connfd c s) {
          world = w;
          timers = ts;
          timer_lst = add_timer ts timer s.timer_lst;
        }))
    else fault

-- accept gave a descriptor, or none for a negative result.
unfoldable pub on_accept : ℕ → Option ℕ → Server → Run Server
unfolding take_on
on_accept cur none s = ok s
on_accept cur (some connfd) s =
    if ltb_ℤ s.world.user_count (pos max_fd)
    then take_on cur connfd s
    else ok (record s { world = record s.world { closed = connfd ∷ s.world.closed } })

-- One byte of the pipe: SIGALRM, SIGTERM or SIGINT.
unfoldable pub on_signal : ℕ → Server → Server
on_signal sig s =
    if sig == 14
    then record s { timeout = true }
    else if sig == 15
    then record s { stop_server = true }
    else if sig == 2
    then record s { stop_server = true }
    else s

-- The bytes that recv gave; none after an error or at the end.
unfoldable pub on_signals : List ℕ → Server → Server
unfolding on_signal
on_signals [] s = s
on_signals (sig ∷ rest) s = on_signals rest (on_signal sig s)
