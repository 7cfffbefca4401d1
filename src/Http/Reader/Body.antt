-- ===== src/Http/Reader/Body.antt =====
-- process_read on a whole request with a body that is text.
use tiny_web_server_learning.Prelude.{
  ℕ, suc, ◌+◌, ◌-◌, ◌*◌, ◌^◌, ◌≤◌, ◌<◌, ◌≡◌, refl, ◌∙◌, ap, true, false, not, ◌||◌, List, ◌∷◌, ◌++◌,
  some, arith, length, length-append, All,
}
use tiny_web_server_learning.Prelude.Int.{pos, ◌+ℤ◌, ltb_ℤ}
use tiny_web_server_learning.Memory.{ok, poke, store-ok, IsString}
use tiny_web_server_learning.Memory.Strings.{NoNul, SpellsAt-frame}
use tiny_web_server_learning.Memory.Bytes.{
  Bytes, Bytes-front, Bytes-back, Bytes-frame, Bytes-from, SpellsAt-Bytes,
}
use tiny_web_server_learning.CString.{to_int}
use tiny_web_server_learning.CString.Laws.{to_int-pos}
use tiny_web_server_learning.Http.Types.{
  HttpConn, Method, get_request, read_buf, check_state_content,
}
use tiny_web_server_learning.Http.World.{World, System}
use tiny_web_server_learning.Http.RequestLine.Accept.{IsWord, Names, request_line}
use tiny_web_server_learning.Http.Content.{body_complete, store_at, parse_content}
use tiny_web_server_learning.Http.Headers.{is_zero}
use tiny_web_server_learning.Http.Headers.Named.{Header}
use tiny_web_server_learning.Http.Headers.Sets.{multipart}
use tiny_web_server_learning.Http.Request.{do_request}
use tiny_web_server_learning.Http.Reader.{read_text, read_round, read_loop, process_read}
use tiny_web_server_learning.Http.Reader.Block.{
  block, AreHeaders, says, last_length, behind_headers,
}
use tiny_web_server_learning.Http.Reader.Cut.{IsText}
use tiny_web_server_learning.Http.Reader.Asked.{request, AtRequest, Asks}
use tiny_web_server_learning.Http.Reader.Whole.{left, few_headers, read-Asks}

-- The body that is next, of `n` bytes, has been cut off.
abbrev cut_body : HttpConn → ℕ → HttpConn
cut_body d n = record d {
  read_buf = poke d.read_buf (d.start_line + n) 0;
  start_line = d.checked_idx;
  check_state = check_state_content;
}

add_pos : (a b : ℕ) → pos a +ℤ pos b ≡ pos (a + b)
unfolding ◌+ℤ◌
add_pos a b = ground arith

arrived_whole :
    (e : HttpConn) (k : ℕ)
    → e.content_length ≡ pos k
    → k + e.checked_idx ≤ e.read_idx
    → e.read_idx < 2 ^ 31
    → body_complete e ≡ true
unfolding body_complete
arrived_whole e k stated arrived small =
    let sum : to_int (e.content_length +ℤ pos e.checked_idx) ≡ pos (k + e.checked_idx) =
      ap (λ z. to_int (z +ℤ pos e.checked_idx)) stated
      ∙ ap to_int (add_pos k e.checked_idx)
      ∙ to_int-pos (k + e.checked_idx) (omega (arith, arrived, small)) in
    let late : ltb_ℤ (pos e.read_idx) (pos (k + e.checked_idx)) ≡ false = ground (arith, arrived) in
    ap (λ z. not (ltb_ℤ (pos e.read_idx) z)) sum ∙ ap not late

-- A body that has arrived is cut off, and m_string points at it.
parse_content-text :
    (sys : System) (w : World) (e : HttpConn) (text k : ℕ)
    → e.content_length ≡ pos k
    → e.is_multipart ≡ false
    → k + e.checked_idx ≤ e.read_idx
    → e.read_idx < 2 ^ 31
    → text + k < e.read_buf.size
    → parse_content sys w e text
      ≡ ok (
        get_request,
        record e { read_buf = poke e.read_buf (text + k) 0; string = read_buf text },
        w,
      )
unfolding parse_content store_at
parse_content-text sys w e text k stated single arrived small fits =
    rw (complete, stored, single) refl
  where
    stored : store_at e.read_buf text e.content_length 0 ≡ ok (poke e.read_buf (text + k) 0)
    stored = ap (λ z. store_at e.read_buf text z 0) stated ∙ store-ok e.read_buf (text + k) 0 fits

    complete : body_complete e ≡ true
    complete = arrived_whole e k stated arrived small

-- The round of the loop on it.
read_loop-body :
    (sys : System) (w : World) (d : HttpConn) (n k : ℕ)
    → d.content_length ≡ pos (suc k)
    → d.is_multipart ≡ false
    → suc k + d.checked_idx ≤ d.read_idx
    → d.read_idx < 2 ^ 31
    → d.start_line + suc k < d.read_buf.size
    → behind_headers sys w (suc n) d
      ≡ some (do_request sys w (record (cut_body d (suc k)) { string = read_buf d.start_line }))
unfolding read_loop read_round read_text
read_loop-body sys w d n k stated single arrived small fits =
    let next : HttpConn = record d {
      start_line = d.checked_idx;
      check_state = check_state_content;
    } in
    let more : is_zero d.content_length ≡ false = ap is_zero stated ∙ ground arith in
    rw (more, parse_content-text sys w next d.start_line (suc k) stated single arrived small fits)
      refl

-- Cutting off the body leaves what the request line and the headers have set.
Asks-cut_body :
    (m : Method) (path : List ℕ) (hs : List Header) (c d : HttpConn) (n : ℕ)
    → d.start_line ≡ d.checked_idx
    → Asks m path hs c d
    → Asks m path hs c (cut_body d n)
Asks-cut_body m path hs c d n start a = record {
  method = a.method;
  place = a.place;
  points = a.points;
  spelled = record {
    inside = a.spelled.inside;
    spells =
        SpellsAt-frame d.read_buf (poke d.read_buf (d.start_line + n) 0) a.place path
          (λ j lo hi. ground (arith, hi, start, a.within)) a.spelled.spells;
  };
  within = a.within;
  linger = a.linger;
  stated = a.stated;
  login = a.login;
  multi = a.multi;
  kept =
      ap
        (λ (y : HttpConn). record y {
          read_buf = poke d.read_buf (d.start_line + n) 0;
          start_line = d.checked_idx;
          check_state = check_state_content;
        })
        a.kept;
}

-- A whole request like that of process_read-Asks, with a body behind it that has no NUL, is of the
-- length that the last Content-Length states and not multipart, where the read buffer has room
-- behind what was received and an int holds its size, is read in one call of process_read. It ends
-- in do_request on a connection with what the request line and the headers say, and with m_string
-- at exactly that body.
pub process_read-body :
    (sys : System) (w : World) (c : HttpConn) (word : List ℕ) (m : Method) (x : ℕ) (q : List ℕ)
    (hs : List Header) (b : ℕ) (body : List ℕ)
    → IsWord word
    → Names word m
    → IsWord (x ∷ q)
    → All IsText (request_line word (b'/' ∷ x ∷ q))
    → AreHeaders hs
    → AtRequest (request word (b'/' ∷ x ∷ q) hs ++ b ∷ body) c
    → last_length c.content_length hs ≡ pos (length (b ∷ body))
    → (c.is_multipart || says (λ h. multipart h.name h.value) hs) ≡ false
    → NoNul (b ∷ body)
    → c.read_idx < c.read_buf.size
    → c.read_idx < 2 ^ 31
    → (d : HttpConn) × (p : ℕ) × (process_read sys w c
        ≡ some (do_request sys w (record d { string = read_buf p })))
      × Asks m (b'/' ∷ x ∷ q) hs c d
      × IsString d.read_buf p (b ∷ body)
process_read-body sys w c word m x q hs b body single names path text are at stated plain no_nul
      fits small =
    let whole = request word (b'/' ∷ x ∷ q) hs in
    let long = length-append whole (b ∷ body) in
    let first : AtRequest whole c = record {
      state = at.state;
      start = at.start;
      received = omega (arith, at.received, long);
      fits = at.fits;
      bytes = Bytes-front c.read_buf c.checked_idx whole (b ∷ body) at.bytes;
    } in
    let (d, ran, a, behind) = read-Asks sys w c word m x q hs single names path text are first in
    let read : d.read_idx ≡ c.read_idx = ap (λ y. y.read_idx) a.kept in
    let n = length (b ∷ body) in
    let p = d.start_line in
    let rounds : left sys w c word m x q hs single names path text are
        ≡ suc (2 * (c.read_idx - c.checked_idx) - length hs - 1) =
      omega (
        arith,
        few_headers hs,
        length-append (request_line word (b'/' ∷ x ∷ q)) (b'\r' ∷ b'\n' ∷ block hs),
        at.received,
        long,
      ) in
    let cut = cut_body d n in
    let same : Bytes d.read_buf p (b ∷ body) =
      Bytes-from c.read_buf d.read_buf p (b ∷ body)
        (λ j hi. behind.after j (omega (arith, hi, behind.start)))
        (Bytes-back c.read_buf c.checked_idx p whole (b ∷ body)
          (omega (arith, behind.start, behind.checked)) at.bytes) in
    (
      cut,
      p,
      ran
          ∙ ap (λ k. behind_headers sys w k d) rounds
          ∙ read_loop-body sys w d _ (length body) (a.stated ∙ stated) (a.multi ∙ plain)
              (omega (arith, read, behind.checked, at.received, long)) (omega (arith, read, small))
              (omega (arith, behind.start, behind.checked, behind.size, at.received, long, fits)),
      Asks-cut_body m (b'/' ∷ x ∷ q) hs c d n behind.start a,
      record {
        inside = omega (arith, behind.start, behind.checked, behind.size, at.received, long, fits);
        spells =
            SpellsAt-Bytes cut.read_buf p (p + n) (b ∷ body) refl no_nul
              (Bytes-frame d.read_buf cut.read_buf p (b ∷ body) (λ j lo. ground (arith, lo)) same)
              (ground arith);
      },
    )
