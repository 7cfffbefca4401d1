-- ===== src/Http/Headers/Named.antt =====
-- The header lines that HttpConn::parse_headers takes, and their names.
use tiny_web_server_learning.Prelude.{
  ℕ, zero, suc, ◌<◌, ◌≡◌, ◌≢◌, ◌⊎◌, inl, inr, refl, sym, ◌∙◌, ap, true, List, [], ◌∷◌, ◌++◌, map,
  length, take, codes, All,
}
use tiny_web_server_learning.CString.{
  contains, strspn, same_bytes, to_lower, strcasecmp_eq, strncasecmp_eq,
}
use tiny_web_server_learning.Http.RequestLine.{blanks}
use tiny_web_server_learning.Http.Headers.{
  HeaderName, connection, content_length, host, cookie, content_type, other, boundary_size,
  header_name,
}

-- A header line: the name with its colon, the blanks behind it, and the value.
pub record Header : Type 0 where
  pub name : HeaderName
  pub word : List ℕ
  pub gap : List ℕ
  pub value : List ℕ

abbrev pub header_line : Header → List ℕ
header_line h = h.word ++ (h.gap ++ h.value)

-- The names that the code tests for, in lower case.
abbrev pub lower_name : HeaderName → List ℕ
lower_name connection = codes "connection:"
lower_name content_length = codes "content-length:"
lower_name host = codes "host:"
lower_name cookie = codes "cookie:"
lower_name content_type = codes "content-type:"
lower_name other = []

-- The line has the name that it says, in any case, and m_boundary has room for the value of a
-- Content-Type.
pub record IsHeader (h : Header) : Type 0 where
  pub known : h.name ≢ other → map to_lower h.word ≡ lower_name h.name
  pub unknown : h.name ≡ other → header_name (header_line h) ≡ other
  pub nonempty : 0 < length h.word
  pub blank : All (λ x. contains x blanks ≡ true) h.gap
  pub starts : strspn h.value blanks ≡ 0
  pub room : h.name ≡ content_type → length h.value < boundary_size

-- The tests of a name see no further than the name.
map-take :
    (n : ℕ) (word t : List ℕ)
    → map to_lower (take n (word ++ t)) ≡ take n (map to_lower word ++ map to_lower t)
map-take zero word t = refl
map-take (suc n) [] [] = refl
map-take (suc n) [] (x ∷ t) = ap (◌∷◌ (to_lower x)) (map-take n [] t)
map-take (suc n) (x ∷ word) t = ap (◌∷◌ (to_lower x)) (map-take n word t)

prefix_same :
    (word t w lit : List ℕ) (n : ℕ)
    → map to_lower word ≡ w
    → strncasecmp_eq (word ++ t) lit n
      ≡ same_bytes (take n (w ++ map to_lower t)) (map to_lower (take n lit))
unfolding strncasecmp_eq strcasecmp_eq
prefix_same word t w lit n e =
    ap (λ s. same_bytes s (map to_lower (take n lit))) (map-take n word t)
    ∙ ap (λ x. same_bytes (take n (x ++ map to_lower t)) (map to_lower (take n lit))) e

name-lower :
    (n : HeaderName) (word t : List ℕ)
    → n ≢ other
    → map to_lower word ≡ lower_name n
    → header_name (word ++ t) ≡ n
unfolding header_name same_bytes to_lower
name-lower connection word t ne e = rw (prefix_same word t _ (codes "Connection:") 11 e)
name-lower content_length word t ne e = rw (
  prefix_same word t _ (codes "Connection:") 11 e,
  prefix_same word t _ (codes "Content-Length:") 15 e,
)
name-lower host word t ne e = rw (
  prefix_same word t _ (codes "Connection:") 11 e,
  prefix_same word t _ (codes "Content-Length:") 15 e,
  prefix_same word t _ (codes "Host:") 5 e,
)
name-lower cookie word t ne e = rw (
  prefix_same word t _ (codes "Connection:") 11 e,
  prefix_same word t _ (codes "Content-Length:") 15 e,
  prefix_same word t _ (codes "Host:") 5 e,
  prefix_same word t _ (codes "Cookie:") 7 e,
)
name-lower content_type word t ne e = rw (
  prefix_same word t _ (codes "Connection:") 11 e,
  prefix_same word t _ (codes "Content-Length:") 15 e,
  prefix_same word t _ (codes "Host:") 5 e,
  prefix_same word t _ (codes "Cookie:") 7 e,
  prefix_same word t _ (codes "Content-Type:") 13 e,
)
name-lower other word t ne e = absurd (ne refl)

other_or_not : (n : HeaderName) → (n ≡ other) ⊎ (n ≢ other)
other_or_not other = inl refl
other_or_not connection = inr λ e. cc
other_or_not content_length = inr λ e. cc
other_or_not host = inr λ e. cc
other_or_not cookie = inr λ e. cc
other_or_not content_type = inr λ e. cc

pub header_name-IsHeader : (h : Header) → IsHeader h → header_name (header_line h) ≡ h.name
header_name-IsHeader h is = elim (other_or_not h.name) [
  | inl e ↦ is.unknown e ∙ sym e
  | inr ne ↦ name-lower h.name h.word (h.gap ++ h.value) ne (is.known ne)
]
