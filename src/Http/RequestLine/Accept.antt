-- ===== src/Http/RequestLine/Accept.antt =====
-- The request lines that parse_request_line accepts, and the path that it finds in them.
use tiny_web_server_learning.Prelude.{
  ℕ, suc, ◌+◌, ◌<◌, ◌≡◌, refl, sym, ◌⊎◌, inl, inr, true, false, List, ◌∷◌, ◌++◌, arith, length,
  length-append, codes, All,
}
use native.Mathlib.Nat.{add-zero}
use tiny_web_server_learning.Prelude.{◌==◌, if◌then◌else◌}
use tiny_web_server_learning.Memory.{
  ok, ◌>>=◌, Returns, returns, Buffer, poke, load-ok, store-ok, c_string-ok, IsString,
}
use tiny_web_server_learning.CString.{
  contains, strspn, strcasecmp_eq, strncasecmp_eq, same_bytes, to_lower,
}
use tiny_web_server_learning.CString.Laws.{SplitAt, strpbrk-append}
use tiny_web_server_learning.CString.Pieces.{length-SplitAt, IsString-before, IsString-after}
use tiny_web_server_learning.Http.Types.{
  HttpConn, HttpCode, Method, get, post, no_request, bad_request, read_buf, check_state_header,
}
use tiny_web_server_learning.Http.RequestLine.{
  blanks, find_url, find_method, cut_version, find_version, find_path, complete_url,
  parse_request_line,
}

-- No blank stands in the string.
abbrev pub IsWord : List ℕ → Type 0
IsWord = All (λ c. contains c blanks ≡ false)

-- The word names the method, in any case.
abbrev pub Names : List ℕ → Method → Type 0
Names word m =
    ((strcasecmp_eq word (codes "GET") ≡ true) × (m ≡ get))
    ⊎ ((strcasecmp_eq word (codes "GET") ≡ false)
        × (strcasecmp_eq word (codes "POST") ≡ true)
        × (m ≡ post))

abbrev pub request_line : List ℕ → List ℕ → List ℕ
request_line word path = word ++ 32 ∷ (path ++ 32 ∷ codes "HTTP/1.1")

-- The line was taken: the method, the path in m_url, and the state of the headers.
pub record Taken (m : Method) (path : List ℕ) (stop : ℕ) (r : HttpCode × HttpConn) : Type 0 where
  pub code : r.0 ≡ no_request
  pub method : r.1.method ≡ m
  pub state : r.1.check_state ≡ check_state_header
  pub place : ℕ
  pub points : r.1.url ≡ read_buf place
  pub spelled : IsString r.1.read_buf place path
  pub within : place + length path < stop

abbrev split_at : (a t : List ℕ) → SplitAt (a ++ 32 ∷ t) (length a)
split_at a t = record { before = a; here = 32; after = t; whole = refl; index = refl }

path-Taken :
    (d : HttpConn) (m : Method) (stop p x : ℕ) (q : List ℕ)
    → d.method ≡ m
    → d.url ≡ read_buf p
    → IsString d.read_buf p (b'/' ∷ x ∷ q)
    → p + length (b'/' ∷ x ∷ q) < stop
    → Returns (Taken m (b'/' ∷ x ∷ q) stop) (find_path d p complete_url)
unfolding find_path complete_url strncasecmp_eq strcasecmp_eq same_bytes to_lower
path-Taken d m stop p x q is points v within =
    let long : (length (b'/' ∷ x ∷ q) == 1) ≡ false = ground arith in
    rw
      (
        c_string-ok d.read_buf p (b'/' ∷ x ∷ q) v,
        load-ok d.read_buf p (omega (arith, v.inside)),
        v.spells.0,
        long,
      )
      (returns (record {
        code = refl;
        method = is;
        state = refl;
        place = p;
        points = points;
        spelled = v;
        within = within;
      }))

cut_version-Taken :
    (d : HttpConn) (m : Method) (stop u x : ℕ) (q : List ℕ)
    → d.method ≡ m
    → IsWord (x ∷ q)
    → IsString d.read_buf u ((b'/' ∷ x ∷ q) ++ 32 ∷ codes "HTTP/1.1")
    → u + length (b'/' ∷ x ∷ q) < stop
    → Returns (Taken m (b'/' ∷ x ∷ q) stop) (
        cut_version d u
          ((b'/' ∷ x ∷ q) ++ 32 ∷ codes "HTTP/1.1")
          λ f url. find_path f url complete_url)
unfolding cut_version contains strcasecmp_eq
cut_version-Taken d m stop u x q is w v within =
    let path = b'/' ∷ x ∷ q in
    let hit = split_at path (codes "HTTP/1.1") in
    rw
      (
        strpbrk-append path (codes "HTTP/1.1") blanks 32 (refl, w) refl,
        store-ok d.read_buf (u + length path) 0 (omega (arith, length-SplitAt hit, v.inside)),
        c_string-ok (poke d.read_buf (u + length path) 0) (u + suc (length path)) (codes "HTTP/1.1")
            (IsString-after d.read_buf u _ v hit),
        cut_version,
      )
      (path-Taken _ m stop u x q is refl (IsString-before d.read_buf u _ v hit) within)

version-Taken :
    (d : HttpConn) (m : Method) (stop u x : ℕ) (q : List ℕ)
    → d.method ≡ m
    → IsWord (x ∷ q)
    → IsString d.read_buf u ((b'/' ∷ x ∷ q) ++ 32 ∷ codes "HTTP/1.1")
    → u + length (b'/' ∷ x ∷ q) < stop
    → Returns (Taken m (b'/' ∷ x ∷ q) stop) (find_version d u λ f url. find_path f url complete_url)
unfolding find_version strspn contains
version-Taken d m stop u x q is w v within =
    rw (c_string-ok d.read_buf u _ v, add-zero u, c_string-ok d.read_buf u _ v)
      (cut_version-Taken d m stop u x q is w v within)

-- A request line of a method word, a path without blanks that is longer than `/`, and HTTP/1.1 is
-- accepted: m_method is the method that the word names, m_url points at exactly that path inside the
-- line, and the headers come next.
pub parse_request_line-Taken :
    (c : HttpConn) (text : ℕ) (word : List ℕ) (m : Method) (x : ℕ) (q : List ℕ)
    → IsWord word
    → Names word m
    → IsWord (x ∷ q)
    → IsString c.read_buf text (request_line word (b'/' ∷ x ∷ q))
    → Returns
        (Taken m (b'/' ∷ x ∷ q) (text + length (request_line word (b'/' ∷ x ∷ q))))
        (parse_request_line c text)
unfolding parse_request_line find_url find_method contains
parse_request_line-Taken c text word m x q single names w v =
    let path = b'/' ∷ x ∷ q in
    let hit = split_at word (path ++ 32 ∷ codes "HTTP/1.1") in
    let b = poke c.read_buf (text + length word) 0 in
    let u = text + suc (length word) in
    let rest = IsString-after c.read_buf text _ v hit in
    rw
      (
        c_string-ok c.read_buf text _ v,
        strpbrk-append word (path ++ 32 ∷ codes "HTTP/1.1") blanks 32 single refl,
        store-ok c.read_buf (text + length word) 0 (omega (arith, length-SplitAt hit, v.inside)),
        c_string-ok b text word (IsString-before c.read_buf text _ v hit),
        ◌>>=◌,
      )
      (method_cases b u (text + length (request_line word (b'/' ∷ x ∷ q))) rest
        (omega (
          arith,
          length-append word (32 ∷ (path ++ 32 ∷ codes "HTTP/1.1")),
          length-append path (32 ∷ codes "HTTP/1.1"),
        ))
        names)
  where
    method_cases :
        (b : Buffer) (u stop : ℕ)
        → IsString b u ((b'/' ∷ x ∷ q) ++ 32 ∷ codes "HTTP/1.1")
        → u + length (b'/' ∷ x ∷ q) < stop
        → Names word m
        → Returns (Taken m (b'/' ∷ x ∷ q) stop) (
            if strcasecmp_eq word (codes "GET")
            then (find_version
                (record c { read_buf = b; url = read_buf u; method = get })
                u
                λ f url. find_path f url complete_url)
            else (if strcasecmp_eq word (codes "POST")
                then (find_version
                    (record c { read_buf = b; url = read_buf u; method = post })
                    u
                    λ f url. find_path f url complete_url)
                else ok (bad_request, record c { read_buf = b; url = read_buf u })))
    method_cases b u stop rest within (inl (is, e)) = rw is (
        version-Taken (record c { read_buf = b; url = read_buf u; method = get }) m stop u x q
          (sym e) w rest within)
    method_cases b u stop rest within (inr (no_get, is, e)) =
        rw (no_get, is)
          (version-Taken (record c { read_buf = b; url = read_buf u; method = post }) m stop u x q
            (sym e) w rest within)
