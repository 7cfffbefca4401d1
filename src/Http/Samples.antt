-- ===== src/Http/Samples.antt =====
-- Connections and requests for tests.
use tiny_web_server_learning.Prelude.{
  ℕ, suc, true, false, List, [], ◌∷◌, ◌++◌, none, some, length, get_or, codes,
}
use tiny_web_server_learning.Prelude.Int.{pos}
use tiny_web_server_learning.Memory.{Buffer}
use tiny_web_server_learning.Http.Types.{
  HttpConn, check_state_requestline, no_file, get, post, null, read_buf,
}
use tiny_web_server_learning.Http.World.{System, World}
use tiny_web_server_learning.Http.Request.Form.{form_body}

abbrev pub buffer_of : List ℕ → Buffer
buffer_of s = record { size = length s; at = λ i. get_or s i 0 }

abbrev pub fresh_conn : HttpConn
fresh_conn = record {
  sockfd = none;
  read_buf = buffer_of [];
  read_idx = 0;
  checked_idx = 0;
  start_line = 0;
  write_buf = record { size = 1024; at = λ i. 0 };
  write_idx = 0;
  check_state = check_state_requestline;
  method = get;
  real_file = none;
  url = null;
  version = null;
  host = null;
  content_length = pos 0;
  linger = false;
  file_address = no_file;
  file_stat = record { st_size = 0; s_iroth = false; s_isdir = false };
  iv = [];
  string = null;
  boundary = [];
  is_multipart = false;
  upload_filename = [];
  set_cookie = 0;
  cookie_is_login = false;
  is_json = false;
  json_string = none;
}

-- A connection that has received `s`, with nothing parsed yet.
abbrev pub receiving : List ℕ → HttpConn
receiving s = record fresh_conn { read_buf = buffer_of s; read_idx = length s }

-- A system where every file can be written, every INSERT works and every path is a small file.
abbrev pub sample_system : System
sample_system = record {
  can_write = λ path. true;
  insert_ok = λ queries query. true;
  stat = λ path. some (record { st_size = 5; s_iroth = true; s_isdir = false });
  contents = λ path. some (codes "hello");
}

abbrev pub sample_world : World
sample_world = record {
  users = (codes "ann", codes "secret") ∷ [];
  files = [];
  queries = [];
  epoll = [];
  closed = [];
  sent = [];
  user_count = pos 0;
}

-- A request for the form of `name` and `password`, as do_request takes it.
abbrev pub form_conn : List ℕ → List ℕ → List ℕ → HttpConn
form_conn url name password = record fresh_conn {
  read_buf = buffer_of (url ++ 0 ∷ (form_body name password ++ 0 ∷ []));
  method = post;
  url = read_buf 0;
  string = read_buf (suc (length url));
  content_length = pos (length (form_body name password));
}
