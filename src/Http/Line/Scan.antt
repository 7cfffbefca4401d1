-- ===== src/Http/Line/Scan.antt =====
-- parse_line: where it stops and what it writes.
use tiny_web_server_learning.Prelude.{
  ℕ, zero, suc, ◌+◌, ◌-◌, ◌≤◌, ◌<◌, ◌≡◌, refl, ◌≢◌, ◌⊎◌, inl, inr, arith, ltb, ◌==◌,
}
use tiny_web_server_learning.Memory.{
  Buffer, poke, Returns, returns, Returns-if, load-ok, store-ok, Returns-map,
}
use tiny_web_server_learning.Http.Types.{HttpConn, LineStatus, line_ok, line_bad, line_open}
use tiny_web_server_learning.Http.Line.{after_cr, after_lf, parse_line_loop, parse_line}

-- The indices of the connection lie in its read buffer, in their order.
pub record InBounds (c : HttpConn) : Type 0 where
  pub started : c.start_line ≤ c.checked_idx
  pub scanned : c.checked_idx ≤ c.read_idx
  pub received : c.read_idx ≤ c.read_buf.size

-- No byte from `p` up to `q` ends a line.
abbrev pub IsPlain : Buffer → ℕ → ℕ → Type 0
IsPlain b p q = (j : ℕ) → p ≤ j → j < q → (b.at j ≢ b'\r') × (b.at j ≢ b'\n')

-- The line that ends with the `\r\n` at `e` is cut off there.
abbrev pub cut_line : HttpConn → ℕ → HttpConn
cut_line c e = record c { read_buf = poke (poke c.read_buf e 0) (suc e) 0; checked_idx = e + 2 }

-- How a scan from `c` ends, by its status.
pub data Scanned (c : HttpConn) : LineStatus × HttpConn → Type 0 where
  ended :
      (e : ℕ) {c' : HttpConn}
      → IsPlain c.read_buf c.checked_idx e
      → c.checked_idx ≤ e + 1
      → e + 1 < c.read_idx
      → c.read_buf.at e ≡ b'\r'
      → c.read_buf.at (e + 1) ≡ b'\n'
      → c' ≡ cut_line c e
      → Scanned c (line_ok, c')
  unended :
      (k : ℕ) {c' : HttpConn}
      → IsPlain c.read_buf c.checked_idx k
      → c.checked_idx ≤ k
      → (k ≡ c.read_idx) ⊎ ((k + 1 ≡ c.read_idx) × (c.read_buf.at k ≡ b'\r'))
      → c' ≡ record c { checked_idx = k }
      → Scanned c (line_open, c')
  malformed :
      (k : ℕ) {c' : HttpConn}
      → c.checked_idx ≤ k
      → k < c.read_idx
      → (c.read_buf.at k ≡ b'\r') ⊎ (c.read_buf.at k ≡ b'\n')
      → c' ≡ record c { checked_idx = k }
      → Scanned c (line_bad, c')

at_cr :
    (c : HttpConn)
    → InBounds c
    → c.checked_idx < c.read_idx
    → c.read_buf.at c.checked_idx ≡ b'\r'
    → Returns (Scanned c) (after_cr c)
unfolding after_cr
at_cr c v h e =
    Returns-if (c.checked_idx + 1 == c.read_idx)
      (λ last. returns (
        unended c.checked_idx (λ j lo hi. absurd (omega arith)) (omega arith)
          (inr (ground arith, e)) refl))
      λ more. rw (load-ok c.read_buf (c.checked_idx + 1) (ground arith)) (
        Returns-if (c.read_buf.at (c.checked_idx + 1) == b'\n')
          (λ found.
            rw
              (
                store-ok c.read_buf c.checked_idx 0 (ground arith),
                store-ok (poke c.read_buf c.checked_idx 0) (c.checked_idx + 1) 0 (ground arith),
              )
              (returns (
                ended c.checked_idx (λ j lo hi. absurd (omega arith)) (omega arith) (ground arith) e
                  (ground arith) (ground arith))))
          λ other. returns (malformed c.checked_idx (omega arith) h (inl e) refl))

at_lf :
    (c : HttpConn)
    → InBounds c
    → c.checked_idx < c.read_idx
    → c.read_buf.at c.checked_idx ≡ b'\n'
    → Returns (Scanned c) (after_lf c)
unfolding after_lf
at_lf c v h e =
    Returns-if (ltb 1 c.checked_idx)
      (λ inner. rw (load-ok c.read_buf (c.checked_idx - 1) (omega arith)) (
        Returns-if (c.read_buf.at (c.checked_idx - 1) == b'\r')
          (λ found.
            rw
              (
                store-ok c.read_buf (c.checked_idx - 1) 0 (omega arith),
                store-ok (poke c.read_buf (c.checked_idx - 1) 0) c.checked_idx 0 (omega arith),
              )
              (returns (
                ended (c.checked_idx - 1) (λ j lo hi. absurd (omega arith)) (omega arith)
                  (ground arith) (ground arith) (ground arith) (ground arith))))
          λ other. returns (malformed c.checked_idx (omega arith) h (inr e) refl)))
      λ first. returns (malformed c.checked_idx (omega arith) h (inr e) refl)

-- A scan that starts behind a plain byte.
Scanned-suc :
    (c : HttpConn) {r : LineStatus × HttpConn}
    → (c.read_buf.at c.checked_idx ≢ b'\r')
    → (c.read_buf.at c.checked_idx ≢ b'\n')
    → Scanned (record c { checked_idx = suc c.checked_idx }) r
    → Scanned c r
Scanned-suc c cr lf (ended e plain lo hi a b eq) =
    ended e (λ j p q. ground (arith, plain j)) (omega arith) hi a b eq
Scanned-suc c cr lf (unended k plain lo stop eq) =
    unended k (λ j p q. ground (arith, plain j)) (omega arith) stop eq
Scanned-suc c cr lf (malformed k lo hi a eq) = malformed k (omega arith) hi a eq

parse_line_loop-Scanned :
    (n : ℕ) (c : HttpConn)
    → InBounds c
    → c.checked_idx + n ≡ c.read_idx
    → Returns (Scanned c) (parse_line_loop n c)
unfolding parse_line_loop
parse_line_loop-Scanned zero c v e =
    returns (
      unended c.checked_idx (λ j lo hi. absurd (omega arith)) (omega arith) (inl (omega arith))
        refl)
parse_line_loop-Scanned (suc n) c v e = rw (load-ok c.read_buf c.checked_idx (omega arith)) (
    Returns-if (c.read_buf.at c.checked_idx == b'\r') (λ cr. at_cr c v (omega arith) (ground arith))
      λ not_cr.
        Returns-if (c.read_buf.at c.checked_idx == b'\n')
          (λ lf. at_lf c v (omega arith) (ground arith))
          λ not_lf.
            Returns-map
              (parse_line_loop-Scanned n (record c { checked_idx = suc c.checked_idx })
                (omega arith) (omega arith))
              λ r s. Scanned-suc c (λ q. ground arith) (λ q. ground arith) s)

-- parse_line never leaves the received bytes: it ends without a fault, as `Scanned` says.
pub parse_line-Scanned : (c : HttpConn) → InBounds c → Returns (Scanned c) (parse_line c)
unfolding parse_line
parse_line-Scanned c v = parse_line_loop-Scanned (c.read_idx - c.checked_idx) c v (omega arith)

-- The loop walks over bytes that end no line.
parse_line_loop-skip :
    (m n k q : ℕ) (c : HttpConn)
    → k ≡ m + n
    → q ≡ c.checked_idx + m
    → q ≤ c.read_buf.size
    → IsPlain c.read_buf c.checked_idx q
    → parse_line_loop k c ≡ parse_line_loop n (record c { checked_idx = q })
unfolding parse_line_loop
parse_line_loop-skip zero n k q c e f h plain =
    let e' : k ≡ n = omega arith in let f' : q ≡ c.checked_idx = omega arith in rw (e', f')
parse_line_loop-skip (suc m) n k q c e f h plain =
    let e' : k ≡ suc (m + n) = omega arith in
    let here = plain c.checked_idx (omega arith) (omega arith) in
    let ih =
      parse_line_loop-skip m n (m + n) q (record c { checked_idx = suc c.checked_idx }) refl
        (omega arith) h (λ j lo hi. plain j (omega arith) hi) in
    rw (e', load-ok c.read_buf c.checked_idx (omega arith)) (ground (arith, here, ih))

-- A scan may as well start behind bytes that end no line.
pub parse_line-skip :
    (q : ℕ) (c : HttpConn)
    → InBounds c
    → c.checked_idx ≤ q
    → q ≤ c.read_idx
    → IsPlain c.read_buf c.checked_idx q
    → parse_line c ≡ parse_line (record c { checked_idx = q })
unfolding parse_line
parse_line-skip q c v lo hi plain =
    parse_line_loop-skip (q - c.checked_idx) (c.read_idx - q) (c.read_idx - c.checked_idx) q c
      (omega arith) (omega arith) (omega arith) plain
