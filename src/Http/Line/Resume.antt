-- ===== src/Http/Line/Resume.antt =====
-- parse_line on whole lines, and on lines that arrive in pieces.
use tiny_web_server_learning.Prelude.{ℕ, suc, ◌+◌, ◌-◌, ◌≤◌, ◌<◌, ◌≡◌, ◌∙◌, sym, arith, ap}
use tiny_web_server_learning.Memory.{ok, ok-injective, Buffer, poke, Returns-inv, load-ok, store-ok}
use tiny_web_server_learning.Http.Types.{HttpConn, LineStatus, line_ok, line_open}
use tiny_web_server_learning.Http.Line.{parse_line_loop, parse_line}
use tiny_web_server_learning.Http.Line.Scan.{
  InBounds, IsPlain, cut_line, Scanned, ended, unended, malformed, parse_line-Scanned,
  parse_line-skip,
}

line_end :
    (n : ℕ) (c : HttpConn)
    → c.checked_idx + 1 < c.read_idx
    → c.read_idx ≤ c.read_buf.size
    → c.read_buf.at c.checked_idx ≡ b'\r'
    → c.read_buf.at (c.checked_idx + 1) ≡ b'\n'
    → parse_line_loop (suc n) c ≡ ok (line_ok, cut_line c c.checked_idx)
unfolding parse_line_loop
line_end n c hi fits cr lf =
    rw
      (
        load-ok c.read_buf c.checked_idx (omega arith),
        load-ok c.read_buf (c.checked_idx + 1) (omega arith),
        store-ok c.read_buf c.checked_idx 0 (omega arith),
        store-ok (poke c.read_buf c.checked_idx 0) (c.checked_idx + 1) 0 (omega arith),
      )
      (ground arith)

-- The next line is cut off at its `\r\n`, and the scan goes on behind it.
pub parse_line_whole :
    (c : HttpConn) (e : ℕ)
    → InBounds c
    → c.checked_idx ≤ e
    → e + 1 < c.read_idx
    → IsPlain c.read_buf c.checked_idx e
    → c.read_buf.at e ≡ b'\r'
    → c.read_buf.at (e + 1) ≡ b'\n'
    → parse_line c ≡ ok (line_ok, cut_line c e)
unfolding parse_line
parse_line_whole c e v lo hi plain cr lf = parse_line-skip e c v lo (omega arith) plain ∙ at_end
  where
    at_end : parse_line (record c { checked_idx = e }) ≡ ok (line_ok, cut_line c e)
    at_end =
        let rounds : c.read_idx - e ≡ suc (c.read_idx - e - 1) = omega arith in
        rw rounds (line_end (c.read_idx - e - 1) (record c { checked_idx = e }) hi v.received cr lf)

-- The connection after more bytes have arrived: those below m_read_idx are what they were.
pub record Received (c : HttpConn) (b : Buffer) (r : ℕ) : Type 0 where
  pub same : (j : ℕ) → j < c.read_idx → b.at j ≡ c.read_buf.at j
  pub more : c.read_idx ≤ r
  pub fits : r ≤ b.size

abbrev pub receive : HttpConn → Buffer → ℕ → HttpConn
receive c b r = record c { read_buf = b; read_idx = r }

resume-Scanned :
    (c : HttpConn) {x : LineStatus × HttpConn} (c' : HttpConn) (b : Buffer) (r : ℕ)
    → InBounds c
    → Received c b r
    → Scanned c x
    → x ≡ (line_open, c')
    → parse_line (receive c' b r) ≡ parse_line (receive c b r)
resume-Scanned c c' b r v g (ended e plain lo hi cr lf eq) is = cc (ap (λ y. y.0) is)
resume-Scanned c c' b r v g (malformed k lo hi stop eq) is = cc (ap (λ y. y.0) is)
resume-Scanned c c' b r v g (unended k plain lo stop eq) is =
    let at_k : c' ≡ record c { checked_idx = k } = sym (ap (λ y. y.1) is) ∙ eq in
    rw at_k (
      sym (
        parse_line-skip k (receive c b r) (omega arith) lo (omega arith)
          λ j p q. rw (g.same j (omega arith)) (plain j p q)))

-- A line that arrives in pieces parses as if it had arrived at once: where parse_line asks for
-- more bytes, going on from there gives what a scan from the start would have given.
pub parse_line_resume :
    (c c' : HttpConn) (b : Buffer) (r : ℕ)
    → InBounds c
    → parse_line c ≡ ok (line_open, c')
    → Received c b r
    → parse_line (receive c' b r) ≡ parse_line (receive c b r)
parse_line_resume c c' b r v e g =
    let (x, ran, s) = Returns-inv (parse_line-Scanned c v) in
    resume-Scanned c c' b r v g s (ok-injective (sym ran ∙ e))
