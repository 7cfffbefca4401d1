-- ===== src/Http/Headers/Sets.antt =====
-- What each header line sets.
use tiny_web_server_learning.Prelude.{
  ℕ, zero, suc, ◌+◌, ◌≤◌, ◌<◌, ◌≡◌, ◌≢◌, refl, sym, ◌∙◌, ap, Bool, true, false, ◌||◌, List, [], ◌∷◌,
  ◌++◌, map, arith, lt→ltb, length, length-append, drop, codes, All,
}
use tiny_web_server_learning.Prelude.Int.{ℤ}
use tiny_web_server_learning.Memory.{
  ok, Returns, returns, Returns-if, Returns-match, Buffer, IsString, c_string-ok,
}
use tiny_web_server_learning.Memory.Strings.{SpellsAt-suffix}
use tiny_web_server_learning.CString.{
  contains, strspn, strstr, to_lower, strcasecmp_eq, strncasecmp_eq, atol, to_int,
}
use tiny_web_server_learning.CString.Laws.{length-map}
use tiny_web_server_learning.Http.Types.{HttpConn, HttpCode, no_request}
use tiny_web_server_learning.Http.RequestLine.{blanks}
use tiny_web_server_learning.Http.Headers.{
  HeaderName, connection, content_length, host, cookie, content_type, other, boundary_size,
  header_value, is_found, copy_boundary, parse_content_type, parse_header, parse_header_line,
  parse_headers,
}
use tiny_web_server_learning.Http.Headers.Named.{
  Header, header_line, lower_name, IsHeader, header_name-IsHeader,
}

-- What a header says, by its name and its value.
abbrev pub keeps_alive : HeaderName → List ℕ → Bool
keeps_alive connection v = strcasecmp_eq v (codes "keep-alive")
keeps_alive _ v = false

abbrev pub logged_in : HeaderName → List ℕ → Bool
logged_in cookie v = is_found (strstr v (codes "is_login=true"))
logged_in _ v = false

abbrev pub multipart : HeaderName → List ℕ → Bool
multipart content_type v = strncasecmp_eq v (codes "multipart/form-data") 19
multipart _ v = false

abbrev pub stated_length : ℤ → HeaderName → List ℕ → ℤ
stated_length z content_length v = to_int (atol v)
stated_length z _ v = z

-- What a header line changes: m_linger, m_content_length, m_cookie_is_login, m_is_multipart, and
-- m_host and m_boundary.
pub record Sets (n : HeaderName) (v : List ℕ) (c d : HttpConn) : Type 0 where
  pub linger : d.linger ≡ (c.linger || keeps_alive n v)
  pub length : d.content_length ≡ stated_length c.content_length n v
  pub login : d.cookie_is_login ≡ (c.cookie_is_login || logged_in n v)
  pub multi : d.is_multipart ≡ (c.is_multipart || multipart n v)
  pub kept : d ≡ record c {
    linger = d.linger;
    content_length = d.content_length;
    cookie_is_login = d.cookie_is_login;
    is_multipart = d.is_multipart;
    host = d.host;
    boundary = d.boundary;
  }

-- The value is what stands behind the blanks.
strspn-blanks :
    (gap v : List ℕ)
    → All (λ x. contains x blanks ≡ true) gap
    → strspn v blanks ≡ 0
    → strspn (gap ++ v) blanks ≡ length gap
unfolding strspn
strspn-blanks [] v h e = e
strspn-blanks (x ∷ gap) v (b, h) e = rw (b, strspn-blanks gap v h e)

suffix-IsString :
    (b : Buffer) (p q : ℕ) (a t : List ℕ)
    → q ≡ p + length a
    → IsString b p (a ++ t)
    → IsString b q t
suffix-IsString b p q a t e v = record {
  inside = omega (arith, e, length-append a t, v.inside);
  spells = SpellsAt-suffix b p q a t e v.spells;
}

header_value-ok :
    (c : HttpConn) (text n : ℕ) (word gap v : List ℕ)
    → n ≡ length word
    → All (λ x. contains x blanks ≡ true) gap
    → strspn v blanks ≡ 0
    → IsString c.read_buf text (word ++ (gap ++ v))
    → header_value c text n ≡ ok (text + n + length gap, v)
unfolding header_value
header_value-ok c text n word gap v e blank starts s =
    let rest = suffix-IsString c.read_buf text (text + n) word (gap ++ v) (omega (arith, e)) s in
    rw (
      c_string-ok c.read_buf (text + n) (gap ++ v) rest,
      strspn-blanks gap v blank starts,
      c_string-ok c.read_buf (text + n + length gap) v
          (suffix-IsString c.read_buf (text + n) (text + n + length gap) gap v refl rest),
    )

-- What a header line does that is taken.
abbrev pub Taking : HeaderName → List ℕ → HttpConn → HttpCode × HttpConn → Type 0
Taking n v c r = (r.0 ≡ no_request) × Sets n v c r.1

length-drop : (k : ℕ) (s : List ℕ) → length (drop k s) ≤ length s
length-drop zero s = omega arith
length-drop (suc k) [] = omega arith
length-drop (suc k) (x ∷ s) = omega (arith, length-drop k s)

module _ (c : HttpConn) (text : ℕ) (word gap v : List ℕ)
    (blank : All (λ x. contains x blanks ≡ true) gap) (starts : strspn v blanks ≡ 0)
    (s : IsString c.read_buf text (word ++ (gap ++ v))) where
  value-ok :
      (n : HeaderName) (k : ℕ)
      → map to_lower word ≡ lower_name n
      → k ≡ length (lower_name n)
      → header_value c text k ≡ ok (text + k + length gap, v)
  value-ok n k e size =
      header_value-ok c text k word gap v (size ∙ sym (ap length e) ∙ length-map to_lower word)
        blank starts s

  parse_content_type-Sets :
      length v < boundary_size → Returns (Taking content_type v c) (parse_content_type c v)
  unfolding parse_content_type copy_boundary
  parse_content_type-Sets room =
      Returns-if (strncasecmp_eq v (codes "multipart/form-data") 19)
        (λ yes.
          Returns-match (strstr v (codes "boundary=")) (λ lost. returns (refl, ground arith))
            λ k found.
              let short = length-drop (k + 9) v in
              rw (lt→ltb (length (drop (k + 9) v)) boundary_size (omega (arith, room, short)))
                (returns (refl, ground arith)))
        λ no. returns (refl, ground arith)

  parse_header-Sets :
      (n : HeaderName)
      → (n ≢ other → map to_lower word ≡ lower_name n)
      → (n ≡ content_type → length v < boundary_size)
      → Returns (Taking n v c) (parse_header c text n)
  unfolding parse_header
  parse_header-Sets connection e room =
      rw (value-ok connection 11 (e λ q. cc) refl) (returns (refl, ground arith))
  parse_header-Sets content_length e room =
      rw (value-ok content_length 15 (e λ q. cc) refl) (returns (refl, ground arith))
  parse_header-Sets host e room =
      rw (value-ok host 5 (e λ q. cc) refl) (returns (refl, ground arith))
  parse_header-Sets cookie e room =
      rw (value-ok cookie 7 (e λ q. cc) refl) (returns (refl, ground arith))
  parse_header-Sets content_type e room =
      rw (value-ok content_type 13 (e λ q. cc) refl) (parse_content_type-Sets (room refl))
  parse_header-Sets other e room = returns (refl, ground arith)

-- A header line sets the member that it is for, and no other.
pub parse_headers-Sets :
    (c : HttpConn) (text : ℕ) (h : Header)
    → IsHeader h
    → IsString c.read_buf text (header_line h)
    → Returns (Taking h.name h.value c) (parse_headers c text)
unfolding parse_headers parse_header_line
parse_headers-Sets c text h is s =
    rw (c_string-ok c.read_buf text (header_line h) s) (by_line (header_line h) refl)
  where
    by_line :
        (l : List ℕ)
        → l ≡ header_line h
        → Returns (Taking h.name h.value c) (parse_header_line c text l)
    by_line [] e =
        absurd (omega (arith, is.nonempty, ap length e, length-append h.word (h.gap ++ h.value)))
    by_line (x ∷ l) e =
        rw (e, header_name-IsHeader h is)
          (parse_header-Sets c text h.word h.gap h.value is.blank is.starts s h.name is.known
            is.room)
