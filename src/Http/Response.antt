-- ===== src/Http/Response.antt =====
-- The answer of a connection in src/http_conn.cpp: HttpConn::add_response and the functions on top
-- of it, and HttpConn::process_write.
pub mod Append
pub mod Page
pub mod Answers
use tiny_web_server_learning.Prelude.{
  ℕ, zero, suc, ◌+◌, ◌-◌, ◌/◌, ◌%◌, Bool, true, false, ◌&&◌, ◌||◌, List, [], ◌∷◌, ◌++◌, Option,
  none, some, leb, ltb, ◌==◌, if◌then◌else◌, length, take, drop, codes,
}
use tiny_web_server_learning.Prelude.Int.{ℤ, pos, negsuc}
use tiny_web_server_learning.Memory.{Run, ok, fault, ◌>>=◌, Buffer, write_bytes}
use tiny_web_server_learning.CString.{strcasecmp_eq, strrchr, to_int}
use tiny_web_server_learning.CString.Print.{decimal, print_at}
use tiny_web_server_learning.Http.Types.{
  HttpConn, HttpCode, get_request, no_resource, forbidden_request, file_request, internal_error,
  IoVec, write_buffer, mapped_file,
}
use tiny_web_server_learning.Http.Request.{string_at}

abbrev crlf : List ℕ
crlf = 13 ∷ 10 ∷ []

-- The formatted text goes behind what the write buffer holds.
unfoldable pub add_response : HttpConn → List ℕ → Run (Bool × HttpConn)
unfolding print_at
add_response c text =
    let size = c.write_buf.size in
    let room = size - 1 - c.write_idx in
    if leb size c.write_idx then ok (false, c) else (do
      b ← print_at c.write_buf c.write_idx room text
      let d = record c { write_buf = b }
      if leb room (length text)
          then ok (false, d)
          else ok (true, record d { write_idx = d.write_idx + length text }))

abbrev pub status_line : ℕ → List ℕ → List ℕ
status_line status title = codes "HTTP/1.1 " ++ (decimal (pos status) ++ (b' ' ∷ (title ++ crlf)))

abbrev pub add_status_line : HttpConn → ℕ → List ℕ → Run (Bool × HttpConn)
add_status_line c status title = add_response c (status_line status title)

abbrev pub content_length_line : ℤ → List ℕ
content_length_line n = codes "Content-Length: " ++ (decimal n ++ crlf)

abbrev pub add_content_length : HttpConn → ℤ → Run (Bool × HttpConn)
add_content_length c n = add_response c (content_length_line n)

-- The type for a suffix of the URL.
unfoldable pub type_of_suffix : List ℕ → List ℕ
type_of_suffix suffix =
    if strcasecmp_eq suffix (codes ".html")
    then codes "text/html"
    else if strcasecmp_eq suffix (codes ".css")
    then codes "text/css"
    else if strcasecmp_eq suffix (codes ".js")
    then codes "text/javascript"
    else if strcasecmp_eq suffix (codes ".jpg") || strcasecmp_eq suffix (codes ".jpeg")
    then codes "image/jpeg"
    else if strcasecmp_eq suffix (codes ".png")
    then codes "image/png"
    else if strcasecmp_eq suffix (codes ".gif")
    then codes "image/gif"
    else if strcasecmp_eq suffix (codes ".mp4")
    then codes "video/mp4"
    else codes "text/html"

unfoldable pub url_type : List ℕ → List ℕ
url_type url = elim (strrchr url b'.') [
  | none ↦ codes "text/html"
  | some i ↦ type_of_suffix (drop i url)
]

abbrev pub content_type_line : List ℕ → List ℕ
content_type_line type = codes "Content-Type:" ++ (type ++ crlf)

unfoldable pub add_content_type : HttpConn → Run (Bool × HttpConn)
add_content_type c =
    if c.is_json
    then add_response c (content_type_line (codes "application/json;charset=utf-8"))
    else (do url ← string_at c c.url; add_response c (content_type_line (url_type url)))

abbrev pub connection_line : Bool → List ℕ
connection_line linger =
    codes "Connection: " ++ ((if linger then codes "keep-alive" else codes "close") ++ crlf)

abbrev pub cookie_line : List ℕ
cookie_line = codes "Set-Cookie: is_login=true; Max-Age=3600; Path=/" ++ crlf

-- The cookie goes out once.
unfoldable pub add_cookie : HttpConn → Run HttpConn
add_cookie c =
    if c.set_cookie == 1
    then (do (_, d) ← add_response c cookie_line; ok (record d { set_cookie = 0 }))
    else ok c

abbrev pub add_blank_line : HttpConn → Run (Bool × HttpConn)
add_blank_line c = add_response c crlf

-- Its result is always `true`.
unfoldable pub add_headers : HttpConn → ℤ → Run HttpConn
add_headers c n = do
  (_, c1) ← add_content_length c n
  (_, c2) ← add_content_type c1
  (_, c3) ← add_response c2 (connection_line c2.linger)
  c4 ← add_cookie c3
  (_, c5) ← add_blank_line c4
  ok c5

abbrev pub add_content : HttpConn → List ℕ → Run (Bool × HttpConn)
add_content c content = add_response c content

abbrev pub ok_string : List ℕ
ok_string = codes "<html><body></body></html>"

-- A body with its headers.
unfoldable pub add_page : HttpConn → List ℕ → Run (Bool × HttpConn)
add_page c body = do d ← add_headers c (to_int (pos (length body))); add_content d body

-- The write buffer alone is sent.
abbrev pub send_buffer : HttpConn → HttpConn
send_buffer c = record c { iv = record { iov_base = write_buffer; iov_len = c.write_idx } ∷ [] }

-- Only the status line is sent.
abbrev pub add_error : HttpConn → ℕ → List ℕ → Run (Bool × HttpConn)
add_error c status title = do (_, d) ← add_status_line c status title; ok (true, send_buffer d)

abbrev pub page_body : HttpConn → List ℕ
page_body c = elim c.json_string [ none ↦ ok_string | some s ↦ if c.is_json then s else ok_string ]

unfoldable pub answer_page : HttpConn → Run (Bool × HttpConn)
answer_page c = do
  (_, d) ← add_status_line c 200 (codes "OK")
  (fits, e) ← add_page d (page_body d)
  ok (if fits then (true, send_buffer e) else (false, e))

-- An empty file falls through to the `default` of the switch.
unfoldable pub answer_file : HttpConn → Run (Bool × HttpConn)
answer_file c = do
  (_, d) ← add_status_line c 200 (codes "OK")
  let n = d.file_stat.st_size
  if n == 0 then (do (_, e) ← add_page d ok_string; ok (false, e)) else (do
    e ← add_headers d (to_int (pos n))
    let head : IoVec = record { iov_base = write_buffer; iov_len = e.write_idx }
    let file : IoVec = record { iov_base = mapped_file; iov_len = n }
    ok (true, record e { iv = head ∷ file ∷ [] }))

unfoldable pub process_write : HttpConn → HttpCode → Run (Bool × HttpConn)
process_write c internal_error = add_error c 500 (codes "Internal Server Error")
process_write c no_resource = add_error c 404 (codes "Not Found")
process_write c forbidden_request = add_error c 403 (codes "Forbidden")
process_write c get_request = answer_page c
process_write c file_request = answer_file c
process_write c _ = ok (false, c)
