-- ===== src/Http/Headers.antt =====
-- HttpConn::parse_headers of src/http_conn.cpp: one header line, or the empty line behind them.
pub mod Named
pub mod Sets
use tiny_web_server_learning.Prelude.{
  ℕ, ◌+◌, true, List, [], ◌∷◌, none, some, ltb, ◌==◌, if◌then◌else◌, length, drop, codes, Bool,
  false, Option,
}
use tiny_web_server_learning.Prelude.Int.{ℤ, pos, negsuc}
use tiny_web_server_learning.Memory.{Run, ok, fault, ◌>>=◌, c_string}
use tiny_web_server_learning.CString.{strspn, strstr, strcasecmp_eq, strncasecmp_eq, atol, to_int}
use tiny_web_server_learning.Http.Types.{
  HttpConn, no_request, get_request, read_buf, check_state_content,
}
use tiny_web_server_learning.Http.RequestLine.{blanks, Parsed}

-- sizeof(m_boundary)
abbrev pub boundary_size : ℕ
boundary_size = 100

-- text += n; text += strspn(text, " \t"): the place of a header's value, and the value.
unfoldable pub header_value : HttpConn → ℕ → ℕ → Run (ℕ × List ℕ)
header_value c text n = do
  s ← c_string c.read_buf (text + n)
  let place = text + n + strspn s blanks
  v ← c_string c.read_buf place
  ok (place, v)

abbrev pub is_zero : ℤ → Bool
is_zero (pos n) = n == 0
is_zero (negsuc n) = false

-- The empty line: the body follows, if there is one.
unfoldable pub end_headers : HttpConn → Parsed
end_headers c =
    if is_zero c.content_length
    then ok (get_request, c)
    else ok (no_request, record c { check_state = check_state_content })

-- strcpy(m_boundary, ...) of what stands behind `boundary=` in the value
unfoldable pub copy_boundary : HttpConn → List ℕ → Parsed
copy_boundary c v = elim (strstr v (codes "boundary=")) [
  | none ↦ ok (no_request, c)
  | some k ↦
      let b = drop (k + 9) v in
      if ltb (length b) boundary_size then ok (no_request, record c { boundary = b }) else fault
]

unfoldable pub parse_content_type : HttpConn → List ℕ → Parsed
unfolding copy_boundary
parse_content_type c v =
    if strncasecmp_eq v (codes "multipart/form-data") 19
    then copy_boundary (record c { is_multipart = true }) v
    else ok (no_request, c)

-- The names that the code tests for, in its order.
pub data HeaderName : Type 0 where
  connection content_length host cookie content_type other : HeaderName

unfoldable pub header_name : List ℕ → HeaderName
header_name s =
    if strncasecmp_eq s (codes "Connection:") 11
    then connection
    else if strncasecmp_eq s (codes "Content-Length:") 15
    then content_length
    else if strncasecmp_eq s (codes "Host:") 5
    then host
    else if strncasecmp_eq s (codes "Cookie:") 7
    then cookie
    else if strncasecmp_eq s (codes "Content-Type:") 13
    then content_type
    else other

abbrev is_found : Option ℕ → Bool
is_found none = false
is_found (some i) = true

unfoldable pub parse_header : HttpConn → ℕ → HeaderName → Parsed
unfolding header_value parse_content_type
parse_header c text connection = do
  (place, v) ← header_value c text 11
  ok (no_request, if strcasecmp_eq v (codes "keep-alive") then record c { linger = true } else c)
parse_header c text content_length = do
  (place, v) ← header_value c text 15
  ok (no_request, record c { content_length = to_int (atol v) })
parse_header c text host = do
  (place, v) ← header_value c text 5
  ok (no_request, record c { host = read_buf place })
parse_header c text cookie = do
  (place, v) ← header_value c text 7
  ok (
    no_request,
    if is_found (strstr v (codes "is_login=true")) then record c { cookie_is_login = true } else c,
  )
parse_header c text content_type = do (place, v) ← header_value c text 13; parse_content_type c v
parse_header c text other = ok (no_request, c)

unfoldable pub parse_header_line : HttpConn → ℕ → List ℕ → Parsed
unfolding end_headers header_name parse_header
parse_header_line c text [] = end_headers c
parse_header_line c text (x ∷ s) = parse_header c text (header_name (x ∷ s))

unfoldable pub parse_headers : HttpConn → ℕ → Parsed
unfolding parse_header_line
parse_headers c text = c_string c.read_buf text >>= parse_header_line c text
