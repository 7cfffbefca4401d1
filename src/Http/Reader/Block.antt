-- ===== src/Http/Reader/Block.antt =====
-- process_read on the headers of a request: a line for each, and the empty line behind them.
use tiny_web_server_learning.Prelude.{
  if◌then◌else◌, ℕ, suc, ◌+◌, ◌≤◌, ◌<◌, ◌≡◌, refl, sym, ◌∙◌, ap, Bool, true, false, ◌||◌, subst,
  List, [], ◌∷◌, ◌++◌, some, arith, length, length-append, All,
}
use tiny_web_server_learning.Prelude.Int.{ℤ}
use tiny_web_server_learning.Memory.{ok, and_then, Returns-inv, c_string-ok}
use tiny_web_server_learning.Memory.Bytes.{Bytes}
use tiny_web_server_learning.Http.Types.{
  no_request, get_request, check_state_content, HttpConn, line_ok, check_state_header,
}
use tiny_web_server_learning.Http.World.{World, System}
use tiny_web_server_learning.Http.Headers.{is_zero, end_headers, parse_headers, parse_header_line}
use tiny_web_server_learning.Http.Headers.Named.{Header, header_line, IsHeader}
use tiny_web_server_learning.Http.Headers.Sets.{
  keeps_alive, logged_in, multipart, stated_length, Sets, parse_headers-Sets,
}
use tiny_web_server_learning.Http.Request.{do_request}
use tiny_web_server_learning.Http.Reader.{Looping, is_get_request, read_text, read_loop}
use tiny_web_server_learning.Http.Reader.Cut.{IsText, next, loop-line, line-IsString, line-Bytes}

-- The bytes of the headers.
abbrev pub block : List Header → List ℕ
block [] = b'\r' ∷ b'\n' ∷ []
block (h ∷ hs) = header_line h ++ b'\r' ∷ b'\n' ∷ block hs

-- Each of them is a header that is taken, in one line.
abbrev pub AreHeaders : List Header → Type 0
AreHeaders = All (λ h. IsHeader h × All IsText (header_line h))

-- Does one of them say it?
abbrev pub says : (Header → Bool) → List Header → Bool
says p [] = false
says p (h ∷ hs) = p h || says p hs

-- The length that the last Content-Length states, or `z`.
abbrev pub last_length : ℤ → List Header → ℤ
last_length z [] = z
last_length z (h ∷ hs) = last_length (stated_length z h.name h.value) hs

-- The headers of `c` are next: their bytes have been received, and none has been scanned.
pub record AtHeaders (hs : List Header) (c : HttpConn) : Type 0 where
  pub state : c.check_state ≡ check_state_header
  pub start : c.start_line ≡ c.checked_idx
  pub received : c.checked_idx + length (block hs) ≤ c.read_idx
  pub fits : c.read_idx ≤ c.read_buf.size
  pub bytes : Bytes c.read_buf c.checked_idx (block hs)

-- What the headers have set.
pub record HeadersSet (hs : List Header) (c d : HttpConn) : Type 0 where
  pub linger : d.linger ≡ (c.linger || says (λ h. keeps_alive h.name h.value) hs)
  pub stated : d.content_length ≡ last_length c.content_length hs
  pub login : d.cookie_is_login ≡ (c.cookie_is_login || says (λ h. logged_in h.name h.value) hs)
  pub multi : d.is_multipart ≡ (c.is_multipart || says (λ h. multipart h.name h.value) hs)
  pub size : d.read_buf.size ≡ c.read_buf.size
  pub before : (j : ℕ) → j < c.checked_idx → d.read_buf.at j ≡ c.read_buf.at j
  pub after : (j : ℕ) → d.checked_idx ≤ j → d.read_buf.at j ≡ c.read_buf.at j
  pub start : d.start_line ≡ d.checked_idx
  pub checked : d.checked_idx ≡ c.checked_idx + length (block hs)
  pub kept : d ≡ record c {
    read_buf = d.read_buf;
    checked_idx = d.checked_idx;
    start_line = d.start_line;
    linger = d.linger;
    content_length = d.content_length;
    cookie_is_login = d.cookie_is_login;
    is_multipart = d.is_multipart;
    host = d.host;
    boundary = d.boundary;
  }

or_assoc : (a b x : Bool) → ((a || b) || x) ≡ (a || (b || x))
or_assoc a b x = ground arith

or_false : (a : Bool) → a ≡ (a || false)
or_false a = ground arith

module _ (sys : System) (w : World) (h : Header) (hs : List Header) (is : IsHeader h)
    (text : All IsText (header_line h)) (c : HttpConn) (at : AtHeaders (h ∷ hs) c) where
  more : length (block (h ∷ hs)) ≡ length (header_line h) + suc (suc (length (block hs)))
  more = length-append (header_line h) (b'\r' ∷ b'\n' ∷ block hs)

  room : c.checked_idx + length (header_line h) + 2 ≤ c.read_idx
  room = omega (arith, more, at.received)

  abbrev behind : HttpConn
  behind = next c (header_line h) (block hs) text at.bytes at.start room at.fits

  -- What is left behind the line of a header.
  header-AtHeaders : (d : HttpConn) → Sets h.name h.value behind d → AtHeaders hs d
  header-AtHeaders d s = subst (AtHeaders hs) (sym s.kept) (record {
    state = at.state;
    start = refl;
    received = omega (arith, more, at.received);
    fits = at.fits;
    bytes = line-Bytes c (header_line h) (block hs) text at.bytes at.start room at.fits;
  })

  -- The round of the loop on it.
  headers-step :
      (n : ℕ)
      → (d : HttpConn) × (read_loop (suc n) sys w c line_ok ≡ read_loop n sys w d line_ok)
        × Sets h.name h.value behind d
  unfolding read_text
  headers-step n =
      let line = line-IsString c (header_line h) (block hs) text at.bytes at.start room at.fits in
      let (x, ran, good) = Returns-inv (parse_headers-Sets behind c.checked_idx h is line) in
      let took : read_text (read_loop n sys) sys w behind c.checked_idx check_state_header
          ≡ read_loop n sys w x.1 line_ok =
        rw (ran, good.0) in
      (
        x.1,
        loop-line c (header_line h) (block hs) text at.bytes at.start room at.fits n sys w
              check_state_header at.state refl
            ∙ took,
        good.1,
      )

  -- What it sets is set for the headers behind it.
  HeadersSet-suc :
      (d f : HttpConn) → Sets h.name h.value behind d → HeadersSet hs d f → HeadersSet (h ∷ hs) c f
  HeadersSet-suc d f s g = record {
    linger =
        g.linger
        ∙ ap (λ b. b || says (λ x. keeps_alive x.name x.value) hs) s.linger
        ∙ or_assoc c.linger (keeps_alive h.name h.value) _;
    stated = g.stated ∙ ap (λ z. last_length z hs) s.length;
    login =
        g.login
        ∙ ap (λ b. b || says (λ x. logged_in x.name x.value) hs) s.login
        ∙ or_assoc c.cookie_is_login (logged_in h.name h.value) _;
    multi =
        g.multi
        ∙ ap (λ b. b || says (λ x. multipart x.name x.value) hs) s.multi
        ∙ or_assoc c.is_multipart (multipart h.name h.value) _;
    size = g.size ∙ ap (λ x. x.read_buf.size) s.kept;
    before = λ j lo. g.before j (omega (arith, further, lo)) ∙ same j ∙ ground (arith, lo);
    after = λ j hi. g.after j hi ∙ same j ∙ ground (arith, hi, further, g.checked);
    start = g.start;
    checked = omega (arith, g.checked, further, more);
    kept =
        g.kept
        ∙ ap
            (λ (x : HttpConn). record x {
              read_buf = f.read_buf;
              checked_idx = f.checked_idx;
              start_line = f.start_line;
              linger = f.linger;
              content_length = f.content_length;
              cookie_is_login = f.cookie_is_login;
              is_multipart = f.is_multipart;
              host = f.host;
              boundary = f.boundary;
            })
            s.kept;
  }
    where
      further : d.checked_idx ≡ behind.checked_idx
      further = ap (λ x. x.checked_idx) s.kept

      same : (j : ℕ) → d.read_buf.at j ≡ behind.read_buf.at j
      same j = ap (λ x. x.read_buf.at j) s.kept

-- What follows the empty line: the request is done, or its body is next.
abbrev pub behind_headers : System → World → ℕ → HttpConn → Looping
behind_headers sys w n d =
    if is_zero d.content_length
    then some (do_request sys w d)
    else read_loop n sys w (record d { check_state = check_state_content }) line_ok

-- The loop from the headers on, with a round for each and one for the empty line.
pub read_loop-headers :
    (sys : System) (w : World) (hs : List Header) (k n : ℕ) (c : HttpConn)
    → k ≡ length hs + suc n
    → AreHeaders hs
    → AtHeaders hs c
    → (d : HttpConn) × (read_loop k sys w c line_ok ≡ behind_headers sys w n d) × HeadersSet hs c d
unfolding read_text parse_headers parse_header_line end_headers
read_loop-headers sys w [] k n c fuel are at =
    let rounds : k ≡ suc n = omega (arith, fuel) in
    let text : All IsText [] = tt in
    let room : c.checked_idx + 0 + 2 ≤ c.read_idx = omega (arith, at.received) in
    let d = next c [] [] text at.bytes at.start room at.fits in
    let line = line-IsString c [] [] text at.bytes at.start room at.fits in
    let took : read_text (read_loop n sys) sys w d c.checked_idx check_state_header
        ≡ behind_headers sys w n d =
      rw (c_string-ok d.read_buf c.checked_idx [] line) (by_length d (is_zero d.content_length)) in
    (
      d,
      ap (λ j. read_loop j sys w c line_ok) rounds
          ∙ loop-line c [] [] text at.bytes at.start room at.fits n sys w check_state_header
              at.state refl
          ∙ took,
      record {
        linger = or_false c.linger;
        stated = refl;
        login = or_false c.cookie_is_login;
        multi = or_false c.is_multipart;
        size = refl;
        before = λ j lo. ground (arith, lo);
        after = λ j hi. ground (arith, hi);
        start = refl;
        checked = omega arith;
        kept = refl;
      },
    )
  where
    by_length :
        (d : HttpConn) (b : Bool)
        → and_then
            (if b
              then ok (get_request, d)
              else ok (no_request, record d { check_state = check_state_content }))
            (λ (ret, e).
              if is_get_request ret then some (do_request sys w e) else read_loop n sys w e line_ok)
          ≡ (if b
              then some (do_request sys w d)
              else read_loop n sys w (record d { check_state = check_state_content }) line_ok)
    by_length d true = refl
    by_length d false = refl
read_loop-headers sys w (h ∷ hs) k n c fuel ((is, text), are) at =
    let rounds : k ≡ suc (length hs + suc n) = omega (arith, fuel) in
    let (d, ran, s) = headers-step sys w h hs is text c at (length hs + suc n) in
    let (f, rest, g) =
      read_loop-headers sys w hs (length hs + suc n) n d refl are
        (header-AtHeaders sys w h hs is text c at d s) in
    (
      f,
      ap (λ j. read_loop j sys w c line_ok) rounds ∙ ran ∙ rest,
      HeadersSet-suc sys w h hs is text c at d f s g,
    )
