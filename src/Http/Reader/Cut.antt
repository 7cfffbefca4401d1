-- ===== src/Http/Reader/Cut.antt =====
-- The round of process_read on a line that has arrived.
use tiny_web_server_learning.Prelude.{
  ℕ, suc, ◌+◌, ◌≤◌, ◌<◌, ◌≡◌, ◌≢◌, ◌⊎◌, refl, sym, ◌∙◌, ap, false, ◌&&◌, List, [], ◌∷◌, ◌++◌, arith,
  length, All, inl, inr,
}
use tiny_web_server_learning.Memory.{ok, Buffer, IsString}
use tiny_web_server_learning.Memory.Strings.{NoNul}
use tiny_web_server_learning.Memory.Bytes.{
  Bytes, Bytes-front, Bytes-back, Bytes-from, Bytes-frame, SpellsAt-Bytes,
}
use tiny_web_server_learning.Http.Types.{HttpConn, CheckState, line_ok}
use tiny_web_server_learning.Http.World.{World, System}
use tiny_web_server_learning.Http.Line.{parse_line}
use tiny_web_server_learning.Http.Line.Scan.{IsPlain, cut_line}
use tiny_web_server_learning.Http.Line.Resume.{parse_line_whole}
use tiny_web_server_learning.Http.Reader.{is_content, is_line_ok, read_text, read_round, read_loop}

-- A byte that ends neither the line nor the string.
abbrev pub IsText : ℕ → Type 0
IsText x = (x ≢ 0) × (x ≢ b'\r') × (x ≢ b'\n')

-- A line of text ends nowhere.
IsText-IsPlain :
    (b : Buffer) (p q : ℕ) (s : List ℕ)
    → q ≡ p + length s
    → Bytes b p s
    → All IsText s
    → IsPlain b p q
IsText-IsPlain b p q [] e h t j lo hi = absurd (omega (arith, e, lo, hi))
IsText-IsPlain b p q (x ∷ s) e (here, h) (t, ts) j lo hi = elim (at_or_after p j lo) [
  | inl same ↦
      (λ r. t.1 (sym here ∙ ap b.at (sym same) ∙ r), λ r. t.2 (sym here ∙ ap b.at (sym same) ∙ r))
  | inr after ↦ IsText-IsPlain b (suc p) q s (omega (arith, e)) h ts j after hi
]
  where
    at_or_after : (p j : ℕ) → p ≤ j → (j ≡ p) ⊎ (suc p ≤ j)
    at_or_after p j lo = ground (arith, lo)

pub IsText-NoNul : (s : List ℕ) → All IsText s → NoNul s
IsText-NoNul [] h = tt
IsText-NoNul (x ∷ s) (t, h) = (t.0, IsText-NoNul s h)

-- The next line, of the text `s`, with more behind it.
module _ (c : HttpConn) (s t : List ℕ) (text : All IsText s)
    (bytes : Bytes c.read_buf c.checked_idx (s ++ b'\r' ∷ b'\n' ∷ t))
    (start : c.start_line ≡ c.checked_idx) (received : c.checked_idx + length s + 2 ≤ c.read_idx)
    (fits : c.read_idx ≤ c.read_buf.size) where
  abbrev pub e : ℕ
  e = c.checked_idx + length s

  abbrev pub next : HttpConn
  next = record (cut_line c e) { start_line = e + 2 }

  ending : Bytes c.read_buf e (b'\r' ∷ b'\n' ∷ t)
  ending = Bytes-back c.read_buf c.checked_idx e s (b'\r' ∷ b'\n' ∷ t) refl bytes

  pub line-cut : parse_line c ≡ ok (line_ok, cut_line c e)
  line-cut =
      let one : e + 1 ≡ suc e = omega arith in
      parse_line_whole c e (omega (arith, start, received, fits)) (omega arith)
        (omega (arith, received))
        (IsText-IsPlain c.read_buf c.checked_idx e s refl
          (Bytes-front c.read_buf c.checked_idx s (b'\r' ∷ b'\n' ∷ t) bytes) text)
        ending.0 (rw one ending.1.0)

  same_before : (j : ℕ) → j < e → next.read_buf.at j ≡ c.read_buf.at j
  same_before j lo = ground (arith, lo)

  same_after : (j : ℕ) → e + 2 ≤ j → next.read_buf.at j ≡ c.read_buf.at j
  same_after j hi = ground (arith, hi)

  pub line-IsString : IsString next.read_buf c.checked_idx s
  line-IsString = record {
    inside = omega (arith, received, fits);
    spells =
        SpellsAt-Bytes next.read_buf c.checked_idx e s refl (IsText-NoNul s text)
          (Bytes-frame c.read_buf next.read_buf c.checked_idx s same_before
            (Bytes-front c.read_buf c.checked_idx s (b'\r' ∷ b'\n' ∷ t) bytes))
          (ground arith);
  }

  pub line-Bytes : Bytes next.read_buf (e + 2) t
  line-Bytes =
      Bytes-from c.read_buf next.read_buf (e + 2) t same_after
        (let two : e + 2 ≡ suc (suc e) = omega arith in rw two ending.1.1)

  -- The round of the loop on it.
  pub loop-line :
      (n : ℕ) (sys : System) (w : World) (state : CheckState)
      → c.check_state ≡ state
      → is_content state ≡ false
      → read_loop (suc n) sys w c line_ok
        ≡ read_text (read_loop n sys) sys w next c.checked_idx state
  unfolding read_loop read_round
  loop-line n sys w state is line =
      let no_body : (is_content c.check_state && is_line_ok line_ok) ≡ false =
        ap (λ x. is_content x && is_line_ok line_ok) is ∙ ap (λ x. x && is_line_ok line_ok) line in
      let cut : read_loop (suc n) sys w c line_ok
          ≡ read_round (read_loop n sys) sys w (cut_line c e) =
        rw (no_body, line-cut) in
      cut
      ∙ ap (λ p. read_text (read_loop n sys) sys w next p c.check_state) start
      ∙ ap (read_text (read_loop n sys) sys w next c.checked_idx) is
