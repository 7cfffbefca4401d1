-- ===== src/Http/Reader/Total.antt =====
-- process_read ends, with the indices in bounds.
use tiny_web_server_learning.Prelude.{
  ℕ, zero, suc, ◌+◌, ◌-◌, ◌*◌, ◌≤◌, ◌<◌, ◌≡◌, refl, Bool, true, false, ◌&&◌, some, arith,
  if◌then◌else◌, Bool-cases, inl, inr,
}
use tiny_web_server_learning.Memory.{Run, ok, and_then, Returns-inv}
use tiny_web_server_learning.Memory.Partial.{Allows, allows, faults, Allows-map}
use tiny_web_server_learning.Http.Types.{
  HttpConn, HttpCode, no_request, CheckState, check_state_requestline, check_state_header,
  check_state_content, LineStatus, line_ok, line_open,
}
use tiny_web_server_learning.Http.World.{World, System}
use tiny_web_server_learning.Http.Line.Scan.{
  cut_line, InBounds, Scanned, ended, unended, malformed, parse_line-Scanned,
}
use tiny_web_server_learning.Http.Content.{Served}
use tiny_web_server_learning.Http.Request.{do_request}
use tiny_web_server_learning.Http.Bounds.{
  SameScan, Keeps, parse_request_line-Keeps, parse_headers-Keeps,
}
use tiny_web_server_learning.Http.Bounds.Content.{ServedKeeps, parse_content-Keeps}
use tiny_web_server_learning.Http.Bounds.Request.{do_request-Keeps}
use tiny_web_server_learning.Http.Reader.{
  Looping, is_line_ok, is_content, is_bad_request, is_get_request, read_text, read_round, read_loop,
  process_read,
}

abbrev pub ServedInBounds : HttpCode × HttpConn × World → Type 0
ServedInBounds r = InBounds r.1

-- The loop ended: not for want of fuel, and with the indices in bounds if it returned.
pub data Ends : Looping → Type 0 where
  ends : {r : Served} → Allows ServedInBounds r → Ends (some r)

Ends-and_then :
    {A : Type 0} (P : A → Type 0) {r : Run A} {f : A → Looping}
    → Allows P r
    → ((a : A) → P a → Ends (f a))
    → Ends (and_then r f)
Ends-and_then P (allows p) k = k _ p
Ends-and_then P faults k = ends faults

and_left : (a b : Bool) → (a && b) ≡ true → a ≡ true
and_left true b h = refl
and_left false b h = h

Ends-if : {x y : Looping} (b : Bool) → Ends x → Ends y → Ends (if b then x else y)
Ends-if true p q = p
Ends-if false p q = q

module _ (sys : System) where
  -- What the loop is asked to do: end from any connection that scans the same bytes.
  abbrev Again : HttpConn → (World → HttpConn → LineStatus → Looping) → LineStatus → Type 0
  Again c again status = (w : World) (d : HttpConn) → SameScan c d → Ends (again w d status)

  SameScan-InBounds : {c d : HttpConn} → InBounds c → SameScan c d → InBounds d
  SameScan-InBounds v s = omega arith

  do_request-Ends :
      (w : World) (c d : HttpConn) → InBounds c → SameScan c d → Ends (some (do_request sys w d))
  do_request-Ends w c d v s = ends (
      Allows-map (do_request-Keeps sys w d) λ r t. SameScan-InBounds (SameScan-InBounds v s) t.scan)

  read_text-Ends :
      (again : World → HttpConn → LineStatus → Looping) (w : World) (c : HttpConn) (text : ℕ)
      (state : CheckState)
      → InBounds c
      → (is_content state ≡ false → Again c again line_ok)
      → (is_content state ≡ true → Again c again line_open)
      → Ends (read_text again sys w c text state)
  unfolding read_text
  read_text-Ends again w c text check_state_requestline v line body =
      Ends-and_then (Keeps c) (parse_request_line-Keeps c text) λ (ret, d) s.
        Ends-if (is_bad_request ret) (ends (allows (SameScan-InBounds v s))) (line refl w d s)
  read_text-Ends again w c text check_state_header v line body =
      Ends-and_then (Keeps c) (parse_headers-Keeps c text)
        λ (ret, d) s. Ends-if (is_get_request ret) (do_request-Ends w c d v s) (line refl w d s)
  read_text-Ends again w c text check_state_content v line body =
      Ends-and_then (ServedKeeps w c) (parse_content-Keeps sys w c text) λ (ret, d, w') s.
        Ends-if (is_get_request ret) (do_request-Ends w' c d v s.scan) (body refl w' d s.scan)

  -- Twice what is left to scan, and one more before a body that needs no line.
  abbrev weight : HttpConn → LineStatus → ℕ
  weight c status =
      2 * (c.read_idx - c.checked_idx)
      + (if is_content c.check_state && is_line_ok status then 1 else 0)

  weight_bound :
      (c : HttpConn) (status : LineStatus)
      → (2 * (c.read_idx - c.checked_idx) ≤ weight c status)
        × (weight c status ≤ 2 * (c.read_idx - c.checked_idx) + 1)
  weight_bound c status = ground arith

  weight_open : (c : HttpConn) → weight c line_open ≡ 2 * (c.read_idx - c.checked_idx)
  weight_open c = ground arith

  -- The loop with less fuel, as the induction hands it on.
  abbrev Below : ℕ → Type 0
  Below n =
      (w : World) (c : HttpConn) (status : LineStatus)
      → InBounds c
      → weight c status < n
      → Ends (read_loop n sys w c status)

  round_with_line :
      (n : ℕ) (w : World) (c : HttpConn)
      → Below n
      → InBounds c
      → 2 * (c.read_idx - c.checked_idx) + 1 < n
      → Ends (read_round (read_loop n sys) sys w c)
  unfolding read_round
  round_with_line n w c below v few =
      read_text-Ends (read_loop n sys) w (record c { start_line = c.checked_idx }) c.start_line
        c.check_state (omega arith)
        (λ e w' d s.
          below w' d line_ok (SameScan-InBounds v1 s)
            (omega (arith, weight_bound d line_ok, s.read, s.checked)))
        (λ e w' d s.
          below w' d line_open (SameScan-InBounds v1 s)
            (omega (arith, weight_open d, s.read, s.checked)))
    where
      v1 : InBounds (record c { start_line = c.checked_idx })
      v1 = omega arith

  round_of_body :
      (n : ℕ) (w : World) (c : HttpConn)
      → Below n
      → InBounds c
      → is_content c.check_state ≡ true
      → 2 * (c.read_idx - c.checked_idx) < n
      → Ends (read_round (read_loop n sys) sys w c)
  unfolding read_round
  round_of_body n w c below v content few =
      read_text-Ends (read_loop n sys) w (record c { start_line = c.checked_idx }) c.start_line
        c.check_state v1 (λ e. cc)
        (λ e w' d s.
          below w' d line_open (SameScan-InBounds v1 s)
            (omega (arith, weight_open d, s.read, s.checked)))
    where
      v1 : InBounds (record c { start_line = c.checked_idx })
      v1 = omega arith

  round-Scanned :
      (n : ℕ) (w : World) (c : HttpConn) {x : LineStatus × HttpConn}
      → Below n
      → InBounds c
      → 2 * (c.read_idx - c.checked_idx) < suc n
      → Scanned c x
      → Ends (
          if is_line_ok x.0
          then read_round (read_loop n sys) sys w x.1
          else some (ok (no_request, x.1, w)))
  round-Scanned n w c below v few (ended e plain lo hi cr lf eq) =
      rw eq (round_with_line n w (cut_line c e) below (omega arith) (omega arith))
  round-Scanned n w c below v few (unended k plain lo stop eq) = rw eq (ends (allows (omega arith)))
  round-Scanned n w c below v few (malformed k lo hi stop eq) = rw eq (ends (allows (omega arith)))

  read_loop-Ends : (n : ℕ) → Below n
  unfolding read_loop
  read_loop-Ends zero w c status v few = absurd (omega arith)
  read_loop-Ends (suc n) w c status v few =
      elim (Bool-cases (is_content c.check_state && is_line_ok status)) [
        | inl body ↦
            rw body (round_of_body n w c (read_loop-Ends n) v (and_left _ _ body) (ground arith))
        | inr line ↦
            let (x, ran, s) = Returns-inv (parse_line-Scanned c v) in
            rw (line, ran)
              (round-Scanned n w c (read_loop-Ends n) v (omega (arith, weight_bound c status)) s)
      ]

-- process_read always ends: the rounds of its loop are bounded by what is left to scan. If it
-- returns, the indices of the connection still lie in the read buffer, in their order.
pub process_read-Ends :
    (sys : System) (w : World) (c : HttpConn) → InBounds c → Ends (process_read sys w c)
unfolding process_read
process_read-Ends sys w c v =
    read_loop-Ends sys (2 * (c.read_idx - c.checked_idx) + 2) w c line_ok v
      (omega (arith, weight_bound sys c line_ok))
