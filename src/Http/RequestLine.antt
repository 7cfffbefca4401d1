-- ===== src/Http/RequestLine.antt =====
-- HttpConn::parse_request_line of src/http_conn.cpp, in the order of its statements. Each part
-- takes the rest of the function as its last argument.
pub mod Inside
pub mod Frame
pub mod Accept
use tiny_web_server_learning.Prelude.{
  ℕ, suc, ◌+◌, Bool, true, false, ◌||◌, not, List, [], ◌∷◌, Option, none, some, ◌==◌, if◌then◌else◌,
  length, codes,
}
use tiny_web_server_learning.Memory.{Run, ok, ◌>>=◌, load, store, c_string, strcpy}
use tiny_web_server_learning.CString.{strpbrk, strspn, strchr, strcasecmp_eq, strncasecmp_eq}
use tiny_web_server_learning.Http.Types.{
  HttpConn, HttpCode, bad_request, no_request, get, post, null, read_buf, check_state_header,
}

abbrev pub blanks : List ℕ
blanks = 32 ∷ b'\t' ∷ []

-- What a parse function returns: a code, and the connection.
abbrev pub Parsed : Type 0
Parsed = Run (HttpCode × HttpConn)

-- m_url = strpbrk(text, " \t"), and the NUL there. The rest is given m_url.
unfoldable pub find_url : HttpConn → ℕ → (HttpConn → ℕ → Parsed) → Parsed
find_url c text rest = do
  s ← c_string c.read_buf text
  elim (strpbrk s blanks) [
    | none ↦ ok (bad_request, record c { url = null })
    | some i ↦ store c.read_buf (text + i) 0 >>= λ b.
        rest (record c { read_buf = b; url = read_buf (text + suc i) }) (text + suc i)
  ]

-- m_method, from the string at `text`
unfoldable pub find_method : HttpConn → ℕ → (HttpConn → Parsed) → Parsed
find_method c text rest = do
  method ← c_string c.read_buf text
  if strcasecmp_eq method (codes "GET")
      then rest (record c { method = get })
      else if strcasecmp_eq method (codes "POST")
      then rest (record c { method = post })
      else ok (bad_request, c)

-- m_version behind the next blank of the string `t` at m_url, and the NUL there. The rest is given
-- m_url.
unfoldable pub cut_version : HttpConn → ℕ → List ℕ → (HttpConn → ℕ → Parsed) → Parsed
cut_version c url t rest = elim (strpbrk t blanks) [
  | none ↦ ok (bad_request, record c { url = read_buf url; version = null })
  | some j ↦ do
    b ← store c.read_buf (url + j) 0
    v ← c_string b (url + suc j)
    let d = record c { read_buf = b; url = read_buf url; version = read_buf (url + suc j) }
    if strcasecmp_eq v (codes "HTTP/1.1") then rest d url else ok (bad_request, d)
]

-- Skip blanks at m_url, and go on from there.
unfoldable pub find_version : HttpConn → ℕ → (HttpConn → ℕ → Parsed) → Parsed
find_version c u rest = do
  s ← c_string c.read_buf u
  let url = u + strspn s blanks
  t ← c_string c.read_buf url
  cut_version c url t rest

-- An absolute URL loses its scheme and its host. The rest is given m_url if it is not null and
-- begins with `/`.
unfoldable pub find_path : HttpConn → ℕ → (HttpConn → ℕ → Parsed) → Parsed
find_path c url rest = do
  s ← c_string c.read_buf url
  let relative = λ (d : HttpConn) (u : ℕ).
      load d.read_buf u >>= λ first. if first == b'/' then rest d u else ok (bad_request, d)
  if strncasecmp_eq s (codes "http://") 7
      then (do
        t ← c_string c.read_buf (url + 7)
        elim (strchr t b'/') [
          | none ↦ ok (bad_request, record c { url = null })
          | some k ↦ relative (record c { url = read_buf (url + 7 + k) }) (url + 7 + k)
        ])
      else relative c url

-- `/` alone becomes `/index.html`, by strcat in place.
unfoldable pub complete_url : HttpConn → ℕ → Parsed
complete_url c url = do
  s ← c_string c.read_buf url
  let done = λ (d : HttpConn). ok (no_request, record d { check_state = check_state_header })
  if length s == 1
      then (strcpy c.read_buf (suc url) (codes "index.html") >>= λ b.
          done (record c { read_buf = b }))
      else done c

unfoldable pub parse_request_line : HttpConn → ℕ → Parsed
unfolding find_url find_method find_version cut_version find_path complete_url
parse_request_line c text = find_url c text λ d url.
    find_method d text
      λ e. find_version e url λ f url'. find_path f url' λ g path. complete_url g path
