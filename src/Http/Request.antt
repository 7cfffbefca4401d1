-- ===== src/Http/Request.antt =====
-- HttpConn::do_request of src/http_conn.cpp: the guard of the protected pages, registration and
-- login, and static files.
pub mod Guard
pub mod Form
pub mod Accounts
pub mod Upload
use tiny_web_server_learning.Prelude.{
  ℕ, zero, suc, ◌+◌, ◌-◌, Bool, true, false, ◌&&◌, ◌||◌, not, List, [], ◌∷◌, ◌++◌, Option, none,
  some, ltb, ◌==◌, if◌then◌else◌, length, codes,
}
use tiny_web_server_learning.Prelude.Int.{pos_part}
use tiny_web_server_learning.Memory.{Run, ok, fault, ◌>>=◌, Buffer, load, c_string, strcpy}
use tiny_web_server_learning.CString.{strcasecmp_eq, same_bytes}
use tiny_web_server_learning.Http.Types.{
  HttpConn, get_request, bad_request, no_resource, forbidden_request, file_request, CharPtr, null,
  read_buf, literal, Method, post, FileStat, FileAddress, map_failed, mapped,
}
use tiny_web_server_learning.Http.World.{World, System, find_user, set_user}
use tiny_web_server_learning.Http.Content.{Served}

-- the string at a pointer that is not null
unfoldable pub string_at : HttpConn → CharPtr → Run (List ℕ)
string_at c null = fault
string_at c (read_buf p) = c_string c.read_buf p
string_at c (literal s) = ok s

-- strcpy(m_url, s): a string literal of the program cannot be written to.
unfoldable pub overwrite_url : HttpConn → CharPtr → List ℕ → Run HttpConn
overwrite_url c null s = fault
overwrite_url c (read_buf p) s = strcpy c.read_buf p s >>= λ b. ok (record c { read_buf = b })
overwrite_url c (literal t) s = fault

unfoldable pub is_protected : List ℕ → Bool
is_protected url =
    strcasecmp_eq url (codes "/welcome.html") || strcasecmp_eq url (codes "/media.html")

-- A loop that copies bytes of m_string from `p` on while `stop` fails, at most `n` of them.
unfoldable pub copy_until : (ℕ → Bool) → ℕ → Buffer → ℕ → Run (List ℕ)
copy_until stop zero b p = load b p >>= λ _. ok []
copy_until stop (suc n) b p =
    let rest = copy_until stop n b (suc p) >>= λ s. load b p >>= λ ch. ok (ch ∷ s) in
    load b p >>= λ ch. if stop ch then ok [] else rest

abbrev pub until_nul : List ℕ → List ℕ
until_nul [] = []
until_nul (zero ∷ s) = []
until_nul (suc c ∷ s) = suc c ∷ until_nul s

-- The bytes in a `char[100]` with a NUL behind them, as a string.
unfoldable pub in_array : List ℕ → Run (List ℕ)
in_array s = if ltb (length s) 100 then ok (until_nul s) else fault

-- `user=NAME&password=PASSWORD`, as the two loops read it: the name and the password.
unfoldable pub credentials : HttpConn → ℕ → Run (List ℕ × List ℕ)
credentials c p = do
  let n = pos_part c.content_length
  s ← copy_until (λ ch. ch == b'&') (n - 5) c.read_buf (p + 5)
  name ← in_array s
  let i = 5 + length s + 10
  t ← copy_until (λ ch. ch == 0 || ch == b'&') (n - i) c.read_buf (p + i)
  password ← in_array t
  ok (name, password)

abbrev pub insert_query : List ℕ → List ℕ → List ℕ
insert_query name password =
    codes "INSERT INTO user(username, passwd) VALUES('"
    ++ (name ++ (codes "', '" ++ (password ++ codes "')")))

abbrev pub reg_success : List ℕ
reg_success = codes "{\"code\": 200, \"msg\": \"Reg Success\", \"url\": \"/index.html\"}"

abbrev pub reg_failed : List ℕ
reg_failed = codes "{\"code\": 500, \"msg\": \"DB Error\"}"

abbrev pub reg_exists : List ℕ
reg_exists = codes "{\"code\": 400, \"msg\": \"User Exist\"}"

abbrev pub login_success : List ℕ
login_success = codes "{\"code\": 200, \"msg\": \"Login Success\", \"url\": \"/welcome.html\"}"

abbrev pub login_failed : List ℕ
login_failed = codes "{\"code\": 401, \"msg\": \"Login Failed\"}"

abbrev answer : HttpConn → List ℕ → HttpConn
answer c s = record c { json_string = some s }

-- `/3`: sprintf writes the query into 200 bytes.
unfoldable pub register : System → World → HttpConn → List ℕ → List ℕ → Served
register sys w c name password = elim (find_user name w.users) [
  | some _ ↦ ok (get_request, answer c reg_exists, w)
  | none ↦
      let query = insert_query name password in
      let sent = record w { queries = query ∷ w.queries } in
      if ltb (length query) 200
      then (if sys.insert_ok w.queries query
          then ok (
            get_request,
            answer c reg_success,
            record sent { users = set_user name password w.users },
          )
          else ok (get_request, answer c reg_failed, sent))
      else fault
]

abbrev pub password_is : Option (List ℕ) → List ℕ → Bool
password_is none password = false
password_is (some stored) password = same_bytes stored password

-- `/2`
unfoldable pub login : World → HttpConn → List ℕ → List ℕ → Served
login w c name password =
    if password_is (find_user name w.users) password
    then ok
        (get_request, record (answer c login_success) { set_cookie = 1; cookie_is_login = true }, w)
    else ok (get_request, answer c login_failed, w)

unfoldable pub api_request : System → World → HttpConn → List ℕ → CharPtr → Served
api_request sys w c url null = ok (bad_request, c, w)
api_request sys w c url (literal s) = fault
api_request sys w c url (read_buf p) = do
  (name, password) ← credentials c p
  if strcasecmp_eq url (codes "/3") then register sys w c name password else login w c name password

-- `resources` and the URL in 200 bytes: a longer one is left without its NUL.
unfoldable pub real_path : List ℕ → Run (List ℕ)
real_path url = if ltb (length url) 191 then ok (codes "resources" ++ url) else fault

-- mmap of the file, which fails for no bytes, too.
unfoldable pub map_file : System → List ℕ → FileStat → FileAddress
map_file sys path st = elim (sys.contents path) [
  | none ↦ map_failed
  | some bytes ↦ if st.st_size == 0 then map_failed else mapped bytes
]

unfoldable pub serve_stat : System → World → HttpConn → List ℕ → Option FileStat → Served
unfolding map_file
serve_stat sys w c path none = ok (no_resource, c, w)
serve_stat sys w c path (some st) =
    let d = record c { file_stat = st } in
    if not st.s_iroth
    then ok (forbidden_request, d, w)
    else if st.s_isdir
    then ok (bad_request, d, w)
    else ok (file_request, record d { file_address = map_file sys path st }, w)

unfoldable pub serve_file : System → World → HttpConn → Served
serve_file sys w c = do
  url ← string_at c c.url
  d ← if strcasecmp_eq url (codes "/") then overwrite_url c c.url (codes "/index.html") else ok c
  url' ← string_at d d.url
  path ← real_path url'
  serve_stat sys w (record d { real_file = some path }) path (sys.stat path)

abbrev pub is_post : Method → Bool
is_post post = true
is_post _ = false

-- What follows the guard of the protected pages.
unfoldable pub dispatch_request : System → World → HttpConn → Served
dispatch_request sys w c = do
  url ← string_at c c.url
  if is_post c.method && (strcasecmp_eq url (codes "/2") || strcasecmp_eq url (codes "/3"))
      then api_request sys w (record c { is_json = true }) url c.string
      else serve_file sys w c

unfoldable pub guard_pages : HttpConn → Run HttpConn
guard_pages c = do
  url ← string_at c c.url
  if is_protected url && not c.cookie_is_login
      then overwrite_url c c.url (codes "/logError.html")
      else ok c

abbrev pub is_null : CharPtr → Bool
is_null null = true
is_null _ = false

unfoldable pub do_request : System → World → HttpConn → Served
do_request sys w c =
    if is_null c.url then ok (bad_request, c, w) else guard_pages c >>= dispatch_request sys w
