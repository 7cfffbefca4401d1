-- ===== src/Http/Response/Page.antt =====
-- The headers and the body that HttpConn::add_headers and add_content print.
use tiny_web_server_learning.Prelude.{
  ℕ, ◌+◌, ◌<◌, ◌≡◌, refl, subst, ◌⊎◌, inl, inr, Bool, true, false, List, [], ◌∷◌, ◌++◌, arith, ◌==◌,
  if◌then◌else◌, length, length-append, codes,
}
use mathlib.Core.List.{append_assoc, append-nil}
use tiny_web_server_learning.Prelude.Int.{ℤ}
use tiny_web_server_learning.Memory.{ok, Returns, returns, Returns-bind}
use tiny_web_server_learning.Http.Types.{HttpConn}
use tiny_web_server_learning.Http.Request.{string_at}
use tiny_web_server_learning.Http.Response.{
  add_response, content_length_line, content_type_line, connection_line, cookie_line, url_type,
  add_content_type, add_cookie, add_headers,
}
use tiny_web_server_learning.Http.Response.Append.{
  Holds, appended, add_response-fits, Holds-appended,
}

abbrev crlf : List ℕ
crlf = 13 ∷ 10 ∷ []

-- `type` is the type of the answer: JSON, or after the URL.
abbrev pub HasType : HttpConn → List ℕ → Type 0
HasType c type =
    ((c.is_json ≡ true) × (type ≡ codes "application/json;charset=utf-8"))
    ⊎ ((c.is_json ≡ false) × (url : List ℕ) × (string_at c c.url ≡ ok url) × (type ≡ url_type url))

abbrev pub cookie_text : ℕ → List ℕ
cookie_text n = if n == 1 then cookie_line else []

-- The headers as a client reads them.
abbrev pub headers_text : ℤ → List ℕ → Bool → ℕ → List ℕ
headers_text n type linger cookie =
    content_length_line n
    ++ (content_type_line type ++ (connection_line linger ++ (cookie_text cookie ++ crlf)))

add_content_type-HasType :
    (c : HttpConn) (type : List ℕ)
    → HasType c type
    → add_content_type c ≡ add_response c (content_type_line type)
unfolding add_content_type
add_content_type-HasType c type (inl (json, e)) = rw (json, e)
add_content_type-HasType c type (inr (json, url, read, e)) = rw (read, e, json)

-- What the headers do to a connection that holds `s`.
pub record Headed (c d : HttpConn) (s : List ℕ) : Type 0 where
  pub held : Holds d s
  pub file : d.file_address ≡ c.file_address
  pub code : d.file_stat ≡ c.file_stat

add_cookie-Headed :
    (c : HttpConn) (s : List ℕ) (set : Bool)
    → (c.set_cookie == 1) ≡ set
    → Holds c s
    → length s + length (if set then cookie_line else []) < 1023
    → Returns (λ d. Headed c d (s ++ (if set then cookie_line else []))) (add_cookie c)
unfolding add_cookie
add_cookie-Headed c s true e h few =
    let g = Holds-appended c s cookie_line h few in
    rw (e, add_response-fits c s cookie_line h few)
      (returns (record {
        held = record { room = g.room; index = g.index; short = g.short; bytes = g.bytes };
        file = refl;
        code = refl;
      }))
add_cookie-Headed c s false e h few =
    rw (e, append-nil) (returns (record { held = h; file = refl; code = refl }))

-- Five texts, one after the other.
record Fits (s a b c d e : List ℕ) : Type 0 where
  first : length s + length a < 1023
  second : length (s ++ a) + length b < 1023
  third : length ((s ++ a) ++ b) + length c < 1023
  fourth : length (((s ++ a) ++ b) ++ c) + length d < 1023
  fifth : length ((((s ++ a) ++ b) ++ c) ++ d) + length e < 1023

all_fit :
    (s a b c d e : List ℕ)
    → length s + length (a ++ (b ++ (c ++ (d ++ e)))) < 1023
    → Fits s a b c d e
all_fit s a b c d e h =
    let l1 = length-append a (b ++ (c ++ (d ++ e))) in
    let l2 = length-append b (c ++ (d ++ e)) in
    let l3 = length-append c (d ++ e) in
    let l4 = length-append d e in
    let m1 = length-append s a in
    let m2 = length-append (s ++ a) b in
    let m3 = length-append ((s ++ a) ++ b) c in
    let m4 = length-append (((s ++ a) ++ b) ++ c) d in
    record {
      first = omega arith;
      second = omega arith;
      third = omega arith;
      fourth = omega arith;
      fifth = omega arith;
    }

five_texts :
    (s a b c d e : List ℕ) → ((((s ++ a) ++ b) ++ c) ++ d) ++ e ≡ s ++ (a ++ (b ++ (c ++ (d ++ e))))
five_texts s a b c d e = simp append_assoc

-- The headers of an answer of `n` bytes are those that a client reads.
pub add_headers-Headed :
    (c : HttpConn) (s type : List ℕ) (n : ℤ)
    → Holds c s
    → HasType c type
    → length s + length (headers_text n type c.linger c.set_cookie) < 1023
    → Returns (λ d. Headed c d (s ++ headers_text n type c.linger c.set_cookie)) (add_headers c n)
unfolding add_headers string_at
add_headers-Headed c s type n h typed few =
    let t1 = content_length_line n in
    let t2 = content_type_line type in
    let t3 = connection_line c.linger in
    let t4 = cookie_text c.set_cookie in
    let c1 = appended c t1 in
    let c2 = appended c1 t2 in
    let c3 = appended c2 t3 in
    let fits = all_fit s t1 t2 t3 t4 crlf few in
    let h1 = Holds-appended c s t1 h fits.first in
    let h2 = Holds-appended c1 (s ++ t1) t2 h1 fits.second in
    let h3 = Holds-appended c2 ((s ++ t1) ++ t2) t3 h2 fits.third in
    rw
      (
        add_response-fits c s t1 h fits.first,
        add_content_type-HasType c1 type typed,
        add_response-fits c1 (s ++ t1) t2 h1 fits.second,
        add_response-fits c2 ((s ++ t1) ++ t2) t3 h2 fits.third,
      )
      (Returns-bind
        (add_cookie-Headed c3 (((s ++ t1) ++ t2) ++ t3) (c.set_cookie == 1) refl h3 fits.fourth)
        λ d headed.
          rw (add_response-fits d ((((s ++ t1) ++ t2) ++ t3) ++ t4) crlf headed.held fits.fifth) (
            returns (record {
              held =
                  subst (Holds (appended d crlf)) (five_texts s t1 t2 t3 t4 crlf) (
                    Holds-appended d ((((s ++ t1) ++ t2) ++ t3) ++ t4) crlf headed.held fits.fifth);
              file = headed.file;
              code = headed.code;
            })))
