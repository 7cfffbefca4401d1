-- ===== src/Server/State.antt =====
-- The state of src/server_epoll.cpp before and in its main loop, and the callback of the timers.
use tiny_web_server_learning.Prelude.{
  ℕ, Bool, false, List, [], ◌∷◌, Option, some, ◌==◌, if◌then◌else◌,
}
use tiny_web_server_learning.Prelude.Int.{pos, ◌-ℤ◌}
use tiny_web_server_learning.Memory.{Run, ok, ◌>>=◌}
use tiny_web_server_learning.Http.Types.{HttpConn}
use tiny_web_server_learning.Http.World.{World, Users, epoll_add, epoll_del}
use tiny_web_server_learning.Http.Conn.{call_epoll, Row, initmysql_result}
use tiny_web_server_learning.TimeHeap.{Timers, TimeHeap, make_heap}
use tiny_web_server_learning.ThreadPool.{ThreadPool, fresh_pool}

-- The users by their descriptors, what they share, the timers, the pool, whose tasks are the
-- descriptors to process, and the two flags of main. A user's timer is the member `timer_of`.
pub record Server : Type 0 where
  pub users : ℕ → HttpConn
  pub world : World
  pub timers : Timers
  pub timer_lst : TimeHeap
  pub pool : ThreadPool ℕ
  pub timeout : Bool
  pub stop_server : Bool

-- What main has made before its loop, where the users that are known are `known`: no timer was
-- deleted.
unfoldable pub started : ℕ → ℕ → Users → (ℕ → HttpConn) → Timers → Server
unfolding make_heap
started server_fd pipe_fd known users timers = record {
  users = users;
  world = record {
    users = known;
    files = [];
    queries = [];
    epoll = epoll_add pipe_fd ∷ (epoll_add server_fd ∷ []);
    closed = [];
    sent = [];
    user_count = pos 0;
  };
  timers = record timers { deleted = []; called = [] };
  timer_lst = make_heap 10000;
  pool = fresh_pool;
  timeout = false;
  stop_server = false;
}

-- main before its loop: the listening socket and the pipe are on the instance, nobody is connected,
-- and the users of the database, `rows`, are known.
unfoldable pub main_start : ℕ → ℕ → Option (List Row) → (ℕ → HttpConn) → Timers → Run Server
unfolding initmysql_result started
main_start server_fd pipe_fd rows users timers =
    initmysql_result rows [] >>= λ known. ok (started server_fd pipe_fd known users timers)

abbrev pub max_fd : ℕ
max_fd = 1000

abbrev pub timeslot : ℕ
timeslot = 5

-- users[fd] = c
abbrev pub set_conn : ℕ → HttpConn → Server → Server
set_conn fd c s = record s { users = λ j. if fd == j then c else s.users j }

-- The callback of every timer, on the user of descriptor `fd`.
unfoldable pub cb_func : ℕ → World → World
unfolding ◌-ℤ◌
cb_func fd w =
    let v = call_epoll (epoll_del (some fd)) w in
    record v { closed = fd ∷ w.closed; user_count = w.user_count -ℤ pos 1 }

-- The calls that tick made, newest first.
unfoldable pub call_backs : List ℕ → World → World
unfolding cb_func
call_backs [] w = w
call_backs (fd ∷ before) w = cb_func fd (call_backs before w)
