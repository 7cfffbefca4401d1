-- ===== src/Http/Reader/Whole.antt =====
-- process_read on a whole request.
use tiny_web_server_learning.Prelude.{
  ℕ, suc, ◌+◌, ◌-◌, ◌*◌, ◌<◌, ◌≡◌, refl, ◌∙◌, ap, true, List, [], ◌∷◌, ◌++◌, some, arith, length,
  length-append, All,
}
use tiny_web_server_learning.Http.Types.{HttpConn, Method, line_ok, check_state_requestline}
use tiny_web_server_learning.Http.World.{World, System}
use tiny_web_server_learning.Http.RequestLine.Accept.{IsWord, Names, request_line}
use tiny_web_server_learning.Http.Headers.{is_zero}
use tiny_web_server_learning.Http.Headers.Named.{Header}
use tiny_web_server_learning.Http.Request.{do_request}
use tiny_web_server_learning.Http.Reader.{read_text, read_loop, process_read}
use tiny_web_server_learning.Http.Reader.Block.{
  block, AreHeaders, last_length, read_loop-headers, behind_headers,
}
use tiny_web_server_learning.Http.Reader.Cut.{IsText, loop-line}
use tiny_web_server_learning.Http.Reader.Asked.{
  Behind, Behind-from, request, AtRequest, Asks, more, room, cut, cut-Taken, taken-AtHeaders,
  Asks-from,
}

-- There are no more headers than bytes of them.
pub few_headers : (hs : List Header) → length hs < length (block hs)
few_headers [] = omega arith
few_headers (h ∷ hs) =
    omega (
      arith,
      few_headers hs,
      length-append (h.word ++ (h.gap ++ h.value)) (b'\r' ∷ b'\n' ∷ block hs),
    )

module _ (sys : System) (w : World) (c : HttpConn) (word : List ℕ) (m : Method) (x : ℕ) (q : List ℕ)
    (hs : List Header) (single : IsWord word) (names : Names word m) (path : IsWord (x ∷ q))
    (text : All IsText (request_line word (b'/' ∷ x ∷ q))) (are : AreHeaders hs) where
  -- The rounds that are left behind the headers.
  abbrev pub left : ℕ
  left = 2 * (c.read_idx - c.checked_idx) - length hs

  -- The request line and the headers.
  pub read-Asks :
      (at : AtRequest (request word (b'/' ∷ x ∷ q) hs) c)
      → (d : HttpConn) × (process_read sys w c ≡ behind_headers sys w left d)
        × Asks m (b'/' ∷ x ∷ q) hs c d
        × Behind (request word (b'/' ∷ x ∷ q) hs) c d
  unfolding process_read read_text
  read-Asks at =
      let n = 2 * (c.read_idx - c.checked_idx) + 1 in
      let fuel : 2 * (c.read_idx - c.checked_idx) + 2 ≡ suc n = omega arith in
      let (d, ran, t, i) = cut-Taken c word m x q hs text at single names path in
      let next_line = cut c word m x q hs text at in
      let took : read_text (read_loop n sys) sys w next_line c.checked_idx check_state_requestline
          ≡ read_loop n sys w d line_ok =
        rw ran in
      let (f, rest, s) =
        read_loop-headers sys w hs n left d
          (omega (arith, few_headers hs, more c word m x q hs text at, at.received)) are
          (taken-AtHeaders c word m x q hs text at d t.state i) in
      (
        f,
        ap (λ k. read_loop k sys w c line_ok) fuel
            ∙ loop-line c (request_line word (b'/' ∷ x ∷ q)) (block hs) text at.bytes at.start
                (room c word m x q hs text at) at.fits n sys w check_state_requestline at.state refl
            ∙ took
            ∙ rest,
        Asks-from c word m x q hs text at d f t i s,
        Behind-from c word m x q hs text at d f i s,
      )

-- A whole request without a body, none of it scanned yet, of a request line of a method word, a path
-- without blanks that is longer than `/` and HTTP/1.1, and of headers whose Content-Type, if there is
-- one, is shorter than m_boundary, is read in one call of process_read. It ends in do_request on a
-- connection with what the request says: the method, the path in m_url, keep-alive, the login
-- cookie and a multipart body if some header says so or they were set before, and the length that
-- the last Content-Length states. But for the read buffer, the scan, m_version, m_host and
-- m_boundary, the other members are what they were.
pub process_read-Asks :
    (sys : System) (w : World) (c : HttpConn) (word : List ℕ) (m : Method) (x : ℕ) (q : List ℕ)
    (hs : List Header)
    → IsWord word
    → Names word m
    → IsWord (x ∷ q)
    → All IsText (request_line word (b'/' ∷ x ∷ q))
    → AreHeaders hs
    → AtRequest (request word (b'/' ∷ x ∷ q) hs) c
    → is_zero (last_length c.content_length hs) ≡ true
    → (d : HttpConn) × (process_read sys w c ≡ some (do_request sys w d))
      × Asks m (b'/' ∷ x ∷ q) hs c d
process_read-Asks sys w c word m x q hs single names path text are at no_body =
    let (d, ran, a, _) = read-Asks sys w c word m x q hs single names path text are at in
    let done : is_zero d.content_length ≡ true = ap is_zero a.stated ∙ no_body in
    (d, ran ∙ rw done refl, a)
