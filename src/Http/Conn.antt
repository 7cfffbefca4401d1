-- ===== src/Http/Conn.antt =====
-- The life of a connection in src/http_conn.cpp: HttpConn::init, init_parse_state, close_conn and
-- process, the calls of epoll_ctl, and initmysql_result.
pub mod Life
pub mod Process
pub mod Settle
pub mod Fresh
use tiny_web_server_learning.Prelude.{
  ℕ, ◌+◌, Bool, true, false, List, [], ◌∷◌, Option, none, some, if◌then◌else◌,
}
use tiny_web_server_learning.Prelude.Int.{pos, ◌+ℤ◌, ◌-ℤ◌}
use tiny_web_server_learning.Memory.{Run, ok, fault, ◌>>=◌, and_then, Buffer}
use tiny_web_server_learning.Http.Types.{
  HttpConn, HttpCode, no_request, check_state_requestline, no_file, get, null,
}
use tiny_web_server_learning.Http.World.{
  World, System, Users, set_user, EpollCall, epoll_add, epoll_mod_in, epoll_mod_out, epoll_del,
}
use tiny_web_server_learning.Http.Content.{Served}
use tiny_web_server_learning.Http.Reader.{process_read}
use tiny_web_server_learning.Http.Response.{process_write}

abbrev pub call_epoll : EpollCall → World → World
call_epoll call w = record w { epoll = call ∷ w.epoll }

abbrev zeroed : Buffer → Buffer
zeroed b = record b { at = λ i. 0 }

-- What it leaves alone: the descriptor, m_real_file, m_file_stat and m_iv.
unfoldable pub init_parse_state : HttpConn → HttpConn
init_parse_state c = record c {
  check_state = check_state_requestline;
  method = get;
  read_idx = 0;
  checked_idx = 0;
  start_line = 0;
  write_idx = 0;
  content_length = pos 0;
  url = null;
  version = null;
  host = null;
  string = null;
  file_address = no_file;
  linger = false;
  read_buf = zeroed c.read_buf;
  write_buf = zeroed c.write_buf;
  set_cookie = 0;
  cookie_is_login = false;
  boundary = [];
  is_multipart = false;
  upload_filename = [];
  is_json = false;
  json_string = none;
}

unfoldable pub init : World → HttpConn → ℕ → HttpConn × World
unfolding ◌+ℤ◌ init_parse_state
init w c sockfd =
    let v = call_epoll (epoll_add sockfd) w in
    (
      init_parse_state (record c { sockfd = some sockfd }),
      record v { user_count = v.user_count +ℤ pos 1 },
    )

unfoldable pub close_conn : World → HttpConn → HttpConn × World
unfolding ◌-ℤ◌
close_conn w c = elim c.sockfd [
  | none ↦ (c, w)
  | some fd ↦
      let v = call_epoll (epoll_del (some fd)) w in
      (
        record c { sockfd = none },
        record v { closed = fd ∷ w.closed; user_count = w.user_count -ℤ pos 1 },
      )
]

abbrev pub is_no_request : HttpCode → Bool
is_no_request no_request = true
is_no_request _ = false

-- The write event is asked for after a failed answer, too.
unfoldable pub process_answer : World → HttpConn → HttpCode → Run (HttpConn × World)
unfolding process_write
process_answer w c code = do
  (write_ret, d) ← process_write c code
  let (e, v) = if write_ret then (d, w) else close_conn w d
  ok (e, call_epoll (epoll_mod_out e.sockfd) v)

-- What process does with the result of process_read.
unfoldable pub serve_result : Option Served → Option (Run (HttpConn × World))
serve_result none = none
serve_result (some r) = some (
    r >>= λ (code, d, v).
    if is_no_request code
    then ok (d, call_epoll (epoll_mod_in d.sockfd) v)
    else process_answer v d code)

-- `none` if the fuel of process_read ran out.
unfoldable pub process : System → World → HttpConn → Option (Run (HttpConn × World))
unfolding serve_result process_answer
process sys w c = serve_result (process_read sys w c)

-- A row of the database: the two columns, none for NULL.
abbrev pub Row : Type 0
Row = Option (List ℕ) × Option (List ℕ)

-- The rows that the database has are put into the map in their order; none if there is no result. A
-- string cannot be made of a column that is NULL.
unfoldable pub initmysql_result : Option (List Row) → Users → Run Users
initmysql_result none users = ok users
initmysql_result (some []) users = ok users
initmysql_result (some ((some name, some password) ∷ rows)) users =
    initmysql_result (some rows) (set_user name password users)
initmysql_result (some ((some name, none) ∷ rows)) users = fault
initmysql_result (some ((none, password) ∷ rows)) users = fault
