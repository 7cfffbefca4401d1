-- ===== src/Http/Response/Answers.antt =====
-- The bytes of the answers that HttpConn::process_write makes.
use tiny_web_server_learning.Prelude.{
  ℕ, ◌+◌, ◌<◌, ◌≡◌, refl, ap, subst, inl, true, false, List, [], ◌∷◌, ◌++◌, some, arith, ◌==◌,
  length, length-append, codes,
}
use mathlib.Core.List.{append_assoc}
use tiny_web_server_learning.Prelude.Int.{pos}
use tiny_web_server_learning.Memory.{Returns, returns, Returns-bind}
use tiny_web_server_learning.CString.{to_int}
use tiny_web_server_learning.Http.Types.{
  HttpConn, get_request, file_request, write_buffer, mapped_file,
}
use tiny_web_server_learning.Http.Request.{string_at}
use tiny_web_server_learning.Http.Response.{
  status_line, add_page, page_body, process_write, answer_page, answer_file,
}
use tiny_web_server_learning.Http.Response.Append.{
  Holds, appended, add_response-fits, Holds-appended,
}
use tiny_web_server_learning.Http.Response.Page.{HasType, headers_text, add_headers-Headed}

abbrev pub ok_line : List ℕ
ok_line = status_line 200 (codes "OK")

-- An answer of JSON text.
abbrev pub json_answer : HttpConn → List ℕ → List ℕ
json_answer c body =
    ok_line
    ++ (headers_text (to_int (pos (length body))) (codes "application/json;charset=utf-8") c.linger
          c.set_cookie
        ++ body)

-- A page behind the text `s`.
add_page-Holds :
    (c : HttpConn) (s type body : List ℕ)
    → Holds c s
    → HasType c type
    → length s
        + length (headers_text (to_int (pos (length body))) type c.linger c.set_cookie ++ body)
      < 1023
    → Returns
        (λ (sent, d).
          (sent ≡ true)
          × Holds d
              (s ++ (headers_text (to_int (pos (length body))) type c.linger c.set_cookie ++ body)))
        (add_page c body)
unfolding add_page
add_page-Holds c s type body h typed few =
    let head = headers_text (to_int (pos (length body))) type c.linger c.set_cookie in
    let long : length (head ++ body) ≡ length head + length body = length-append head body in
    let front : length (s ++ head) ≡ length s + length head = length-append s head in
    let few1 : length s + length head < 1023 = omega (arith, few, long) in
    let few2 : length (s ++ head) + length body < 1023 = omega (arith, few, long, front) in
    Returns-bind (add_headers-Headed c s type (to_int (pos (length body))) h typed few1) λ d headed.
      rw (add_response-fits d (s ++ head) body headed.held few2) (
        returns (
          refl,
          subst (Holds (appended d body)) (append_assoc s head body)
              (Holds-appended d (s ++ head) body headed.held few2),
        ))

page_body-json :
    (c : HttpConn) (body : List ℕ)
    → c.is_json ≡ true
    → c.json_string ≡ some body
    → page_body c ≡ body
page_body-json c body json answer = rw (answer, json)

both_fit :
    (a b : List ℕ) → length (a ++ b) < 1023 → (0 + length a < 1023) × (length a + length b < 1023)
both_fit a b h = (omega (arith, length-append a b), omega (arith, length-append a b))

-- The answer of registration and login: if the write buffer is empty and the whole answer has fewer
-- than 1023 bytes, process_write returns true, and what is sent is one piece, the write buffer,
-- with the status line, the headers (the length of the JSON text, the JSON type, the
-- connection line, and the cookie if it is set), an empty line and the JSON text.
pub process_write-json :
    (c : HttpConn) (body : List ℕ)
    → Holds c []
    → c.is_json ≡ true
    → c.json_string ≡ some body
    → length (json_answer c body) < 1023
    → Returns
        (λ (sent, d).
          (sent ≡ true)
          × Holds d (json_answer c body)
          × (d.iv ≡ record { iov_base = write_buffer; iov_len = length (json_answer c body) } ∷ []))
        (process_write c get_request)
unfolding process_write answer_page add_page
process_write-json c body h json answer few =
    let c1 = appended c ok_line in
    let json_type = codes "application/json;charset=utf-8" in
    let head = headers_text (to_int (pos (length body))) json_type c.linger c.set_cookie in
    let (few0, few1) = both_fit ok_line (head ++ body) few in
    let h1 = Holds-appended c [] ok_line h few0 in
    rw (add_response-fits c [] ok_line h few0, page_body-json c1 body json answer)
      (Returns-bind (add_page-Holds c1 ok_line json_type body h1 (inl (json, refl)) few1)
        λ (sent, d) (all_sent, held). rw all_sent (
          returns (
            refl,
            record { room = held.room; index = held.index; short = held.short; bytes = held.bytes },
            ap (λ n. record { iov_base = write_buffer; iov_len = n } ∷ []) held.index,
          )))

some_bytes : (n : ℕ) → 0 < n → (n == 0) ≡ false
some_bytes n h = ground arith

-- The answer of a file: if the write buffer is empty, the headers have fewer than 1023 bytes and
-- the file is not empty, process_write returns true, and what is sent is two pieces: the write
-- buffer, with the status line and the headers (the length and the type of the
-- file), and the mapped file with its length.
pub process_write-file :
    (c : HttpConn) (type : List ℕ)
    → Holds c []
    → HasType c type
    → 0 < c.file_stat.st_size
    → length (ok_line ++ headers_text (to_int (pos c.file_stat.st_size)) type c.linger c.set_cookie)
      < 1023
    → Returns
        (λ (sent, d).
          let answer =
            ok_line ++ headers_text (to_int (pos c.file_stat.st_size)) type c.linger c.set_cookie in
          (sent ≡ true)
          × Holds d answer
          × (d.file_address ≡ c.file_address)
          × (d.iv
              ≡ record { iov_base = write_buffer; iov_len = length answer }
                ∷ record { iov_base = mapped_file; iov_len = c.file_stat.st_size }
                ∷ []))
        (process_write c file_request)
unfolding process_write answer_file string_at
process_write-file c type h typed full few =
    let c1 = appended c ok_line in
    let n = c.file_stat.st_size in
    let (few0, few1) =
      both_fit ok_line (headers_text (to_int (pos n)) type c.linger c.set_cookie) few in
    let h1 = Holds-appended c [] ok_line h few0 in
    rw (add_response-fits c [] ok_line h few0, some_bytes n full)
      (Returns-bind (add_headers-Headed c1 ok_line type (to_int (pos n)) h1 typed few1) λ d headed.
        returns (
          refl,
          record {
            room = headed.held.room;
            index = headed.held.index;
            short = headed.held.short;
            bytes = headed.held.bytes;
          },
          headed.file,
          ap
              (λ k.
                record { iov_base = write_buffer; iov_len = k }
                ∷ record { iov_base = mapped_file; iov_len = n }
                ∷ [])
              headed.held.index,
        ))
