-- ===== src/Server/Watched.antt =====
-- The invariant of the server of src/server_epoll.cpp: every connection on the epoll instance has
-- a timer in the heap that will call back, and operations on one connection keep it for the others.
use tiny_web_server_learning.Prelude.{
  ℕ, suc, ◌+◌, ◌≤◌, ◌<◌, ◌≡◌, ◌≢◌, refl, sym, ◌∙◌, ap, true, some, arith,
}
use tiny_web_server_learning.Http.Types.{HttpConn}
use tiny_web_server_learning.Http.World.Epoll.{watches}
use tiny_web_server_learning.TimeHeap.{Timer, Timers, TimeHeap, set_at, add_timer}
use tiny_web_server_learning.TimeHeap.Order.{set_at-eq, set_at-ne}
use tiny_web_server_learning.TimeHeap.Pending.{Sound}
use tiny_web_server_learning.TimeHeap.Kept.{one, tally, tally-add_timer}
use tiny_web_server_learning.TimeHeap.Owned.{Owned}
use tiny_web_server_learning.Server.State.{Server}

-- The connection on descriptor `fd`, its timer and the heap: the connection has the descriptor,
-- and the timer that `users_timer[fd]` points to is in the heap, has its callback, belongs to `fd`
-- and expires at most 15 seconds after `latest`.
pub record Live (latest fd : ℕ) (c : HttpConn) (ts : Timers) (h : TimeHeap) : Type 0 where
  pub socket : c.sockfd ≡ some fd
  pub callback : (ts.at (ts.timer_of fd)).cb_func ≡ true
  pub owner : (ts.at (ts.timer_of fd)).user_data ≡ fd
  pub pending : 0 < tally (ts.timer_of fd) h.array h.cur_size
  pub made : ts.timer_of fd < ts.next
  pub soon : (ts.at (ts.timer_of fd)).expire ≤ latest + 15

-- The heap is in order and no timer in it was deleted, and every watched descriptor but those of the listening socket and the pipe
-- has a live connection.
pub record Watched (server_fd pipe_fd latest : ℕ) (s : Server) : Type 0 where
  pub sound : Sound s.timers s.timer_lst
  pub owned : Owned s.timers s.timer_lst
  pub live :
      (fd : ℕ)
      → fd ≢ server_fd
      → fd ≢ pipe_fd
      → watches fd s.world.epoll ≡ true
      → Live latest fd (s.users fd) s.timers s.timer_lst

-- What a change of the timers leaves of a user's.
pub record Spares (fd : ℕ) (ts us : Timers) (h g : TimeHeap) : Type 0 where
  pub pointer : us.timer_of fd ≡ ts.timer_of fd
  pub timer : us.at (ts.timer_of fd) ≡ ts.at (ts.timer_of fd)
  pub in_heap :
      tally (ts.timer_of fd) h.array h.cur_size ≤ tally (ts.timer_of fd) g.array g.cur_size
  pub more : ts.next ≤ us.next

pub Live-Spares :
    (latest fd : ℕ) (c d : HttpConn) (ts us : Timers) (h g : TimeHeap)
    → Live latest fd c ts h
    → d.sockfd ≡ c.sockfd
    → Spares fd ts us h g
    → Live latest fd d us g
Live-Spares latest fd c d ts us h g l same k = record {
  socket = same ∙ l.socket;
  callback = rw (k.pointer, k.timer) l.callback;
  owner = rw (k.pointer, k.timer) l.owner;
  pending = rw k.pointer (omega (arith, l.pending, k.in_heap));
  made = omega (arith, k.pointer, l.made, k.more);
  soon = rw (k.pointer, k.timer) l.soon;
}

-- Two live users have timers of their own.
pub apart :
    (latest fd fd' : ℕ) (c c' : HttpConn) (ts : Timers) (h : TimeHeap)
    → Live latest fd c ts h
    → Live latest fd' c' ts h
    → fd ≢ fd'
    → ts.timer_of fd ≢ ts.timer_of fd'
apart latest fd fd' c c' ts h l l' ne e =
    ne (sym l.owner ∙ ap (λ p. (ts.at p).user_data) e ∙ l'.owner)

-- A new timer in the heap.
module _ (ts us : Timers) (h : TimeHeap) (t : Timer) (fd : ℕ) where
  -- `us` has `t` at the next pointer, for the user `fd`.
  pub record Grown : Type 0 where
    pub next : us.next ≡ suc ts.next
    pub here : us.at ts.next ≡ t
    pub pointer : us.timer_of ≡ set_at ts.timer_of fd ts.next

  pub Grown-Live :
      (latest : ℕ) (c : HttpConn)
      → Grown
      → c.sockfd ≡ some fd
      → t.cb_func ≡ true
      → t.user_data ≡ fd
      → t.expire ≤ latest + 15
      → Live latest fd c us (add_timer us ts.next h)
  Grown-Live latest c g socket calls owner early =
      let p : us.timer_of fd ≡ ts.next =
        ap (λ m. m fd) g.pointer ∙ set_at-eq ts.timer_of fd ts.next fd refl in
      let new : one ts.next ts.next ≡ 1 = ground arith in
      record {
        socket = socket;
        callback = rw (p, g.here) calls;
        owner = rw (p, g.here) owner;
        pending = rw p (omega (arith, tally-add_timer us h ts.next ts.next, new));
        made = omega (arith, p, g.next);
        soon = rw (p, g.here) early;
      }

  pub Grown-Spares :
      (other : ℕ)
      → Grown
      → other ≢ fd
      → us.at (ts.timer_of other) ≡ ts.at (ts.timer_of other)
      → Spares other ts us h (add_timer us ts.next h)
  Grown-Spares other g ne same = record {
    pointer =
        ap (λ m. m other) g.pointer ∙ set_at-ne ts.timer_of fd ts.next other (λ e. ne (sym e));
    timer = same;
    in_heap = omega (arith, tally-add_timer us h ts.next (ts.timer_of other));
    more = omega (arith, g.next);
  }
