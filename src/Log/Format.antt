-- ===== src/Log/Format.antt =====
-- How write_log puts a line together in its buffer, and when the buffer is too small for it.
use tiny_web_server_learning.Prelude.{
  ℕ, ◌+◌, ◌-◌, ◌≤◌, ◌<◌, ◌≡◌, ◌∙◌, inl, inr, false, Bool-cases, List, [], ◌∷◌, ◌++◌, arith, ltb,
  le→ltb, ltb→lt, length, length-append,
}
use tiny_web_server_learning.Memory.{
  Run, ok, fault, ◌>>=◌, Buffer, poke, update, store, store-ok, c_string-ok, IsString,
}
use tiny_web_server_learning.Memory.Strings.{NoNul, written, size-written, at-written}
use tiny_web_server_learning.Memory.Partial.{Allows, allows, faults, Allows-bind, store-HasSize}
use tiny_web_server_learning.Memory.Bytes.{
  Bytes, Bytes-frame, Bytes-append, Bytes-written, SpellsAt-Bytes,
}
use tiny_web_server_learning.CString.Print.{print_at-whole, print_at-HasSize, NoNul-append}
use mathlib.Core.List.{append_assoc}
use tiny_web_server_learning.Log.State.{Tm, Log}
use tiny_web_server_learning.Log.Write.{stamp, print_line, format_line}
use tiny_web_server_learning.Log.Stamp.{IsTime, Short-stamp, line_of, line_of-split}

-- The line is in the result and the buffer keeps its size, or the buffer is overrun.
pub data Formatted (line : List ℕ) (size : ℕ) : Run (List ℕ × Log) → Type 0 where
  fits : {l : Log} → length line < size → l.buf.size ≡ size → Formatted line size (ok (line, l))
  overruns : size ≤ length line → Formatted line size fault

-- The buffer after the two prints and the two stores.
module _ (b : Buffer) (P T : List ℕ) where
  abbrev stamped : Buffer
  stamped = written b 0 (P ++ 0 ∷ [])

  abbrev printed : Buffer
  printed = written stamped (length P) (T ++ 0 ∷ [])

  abbrev ended : Buffer
  ended = poke printed (length P + length T) b'\n'

  abbrev finished : Buffer
  finished = poke ended (length P + length T + 1) 0

  size-printed : printed.size ≡ b.size
  size-printed = size-written stamped (length P) (T ++ 0 ∷ []) ∙ size-written b 0 (P ++ 0 ∷ [])

  Bytes-ended : Bytes ended 0 (P ++ (T ++ b'\n' ∷ []))
  Bytes-ended =
      let n = length P in
      let first : Bytes printed 0 P =
        Bytes-frame stamped printed 0 P
          (λ j l. at-written stamped n (T ++ 0 ∷ []) j (inl (omega arith)))
          (Bytes-written b 0 P (0 ∷ [])) in
      let both : Bytes printed 0 (P ++ T) =
        Bytes-append printed 0 n P T (omega arith) first (Bytes-written stamped n T (0 ∷ [])) in
      let kept : Bytes ended 0 (P ++ T) =
        Bytes-frame printed ended 0 (P ++ T)
          (λ j l. away printed.at n (length T) j (omega (arith, length-append P T))) both in
      let last : Bytes ended (n + length T) (b'\n' ∷ []) = (here printed.at (n + length T), tt) in
      rw⁻¹ (append_assoc P T (b'\n' ∷ [])) (
        Bytes-append ended 0 (n + length T) (P ++ T) (b'\n' ∷ []) (omega (arith, length-append P T))
          kept last)
    where
      away : (a : ℕ → ℕ) (n m j : ℕ) → j < n + m → update a (n + m) 10 j ≡ a j
      away a n m j l = ground arith

      here : (a : ℕ → ℕ) (i : ℕ) → update a i 10 i ≡ 10
      here a i = ground arith

  IsString-finished :
      NoNul P
      → NoNul T
      → length P + length T + 1 < b.size
      → IsString finished 0 (P ++ (T ++ b'\n' ∷ []))
  IsString-finished hp ht l =
      let whole = P ++ (T ++ b'\n' ∷ []) in
      let size : length whole ≡ length P + length T + 1 =
        omega (arith, length-append P (T ++ b'\n' ∷ []), length-append T (b'\n' ∷ [])) in
      record {
        inside = omega (arith, size, size-printed, l);
        spells =
            SpellsAt-Bytes finished 0 (length P + length T + 1) whole (omega (arith, size))
              (NoNul-append P (T ++ b'\n' ∷ []) hp
                (NoNul-append T (b'\n' ∷ []) ht (λ e. absurd (omega (arith, e)), tt)))
              (Bytes-frame ended finished 0 whole
                (λ j k. ended_kept ended.at (length P + length T) j (omega (arith, k, size)))
                Bytes-ended)
              (here ended.at (length P + length T + 1));
      }
    where
      ended_kept : (a : ℕ → ℕ) (i j : ℕ) → j < i + 1 → update a (i + 1) 0 j ≡ a j
      ended_kept a i j l = ground arith

      here : (a : ℕ → ℕ) (i : ℕ) → update a i 0 i ≡ 0
      here a i = ground arith

  print_line-fits :
      length P < 48
      → NoNul P
      → NoNul T
      → length P + length T + 1 < b.size
      → print_line b P T ≡ ok (P ++ (T ++ b'\n' ∷ []), finished)
  unfolding print_line
  print_line-fits short hp ht l =
      let n = length P in
      let m = length T in
      rw (
        print_at-whole b 0 48 P short (omega (arith, l)),
        print_at-whole stamped n (stamped.size - 1) T
            (omega (arith, l, size-written b 0 (P ++ 0 ∷ [])))
            (omega (arith, l, size-written b 0 (P ++ 0 ∷ []))),
        store-ok printed (n + m) b'\n' (omega (arith, size-printed, l)),
        store-ok ended (n + m + 1) 0 (omega (arith, size-printed, l)),
        c_string-ok finished 0 (P ++ (T ++ b'\n' ∷ [])) (IsString-finished hp ht l),
      )

  -- The last store is out of bounds.
  print_line-overruns : b.size ≤ length P + length T + 1 → Allows (λ _. ⊥) (print_line b P T)
  unfolding print_line store
  print_line-overruns l =
      let n = length P in
      let m = length T in
      Allows-bind (print_at-HasSize b 0 48 P) λ b1 e1.
        Allows-bind (print_at-HasSize b1 n (b1.size - 1) T) λ b2 e2.
          Allows-bind (store-HasSize b2 (n + m) b'\n')
            λ b3 e3. rw (le→ltb (n + m + 1) b3.size (omega (arith, l, e1, e2, e3))) faults

Formatted-fault :
    {line : List ℕ} {size : ℕ} (l : Log) (r : Run (List ℕ × Buffer))
    → size ≤ length line
    → Allows (λ _. ⊥) r
    → Formatted line size (r >>= λ (s, b). ok (s, record l { buf = b }))
Formatted-fault l fault long h = overruns long
Formatted-fault l (ok x) long (allows h) = absurd h

-- With room, the call changes nothing but the buffer.
pub format_line-fits :
    (tm : Tm) (level : ℕ) (text : List ℕ) (l : Log)
    → IsTime tm
    → NoNul text
    → length (line_of tm level text) < l.buf.size
    → (b : Buffer) × (b.size ≡ l.buf.size)
      × (format_line tm level text l ≡ ok (line_of tm level text, record l { buf = b }))
unfolding format_line line_of
format_line-fits tm level text l time clean less =
    let s = stamp tm level in
    let short = Short-stamp tm level time in
    let size = line_of-split tm level text in
    (
      finished l.buf s text,
      size-printed l.buf s text,
      rw (
          print_line-fits l.buf s text (omega (arith, short.few)) short.clean clean
            (omega (arith, size, less))),
    )

-- The line that a call puts together is the stamp with the time and the level, the text and a
-- newline, where the buffer has room for that and a NUL; otherwise the call writes out of bounds.
pub format_line-Formatted :
    (tm : Tm) (level : ℕ) (text : List ℕ) (l : Log)
    → IsTime tm
    → NoNul text
    → Formatted (line_of tm level text) l.buf.size (format_line tm level text l)
unfolding format_line line_of
format_line-Formatted tm level text l time clean =
    let s = stamp tm level in
    let size = line_of-split tm level text in
    elim (Bool-cases (ltb (length (line_of tm level text)) l.buf.size)) [
      | inl room ↦
          let less = ltb→lt (length (line_of tm level text)) l.buf.size room in
          let (b, same, runs) = format_line-fits tm level text l time clean less in
          rw runs (fits less same)
      | inr long ↦
          let more = leb_of (length (line_of tm level text)) l.buf.size long in
          Formatted-fault l (print_line l.buf s text) more
            (print_line-overruns l.buf s text (omega (arith, size, more)))
    ]
  where
    leb_of : (a b : ℕ) → ltb a b ≡ false → b ≤ a
    leb_of a b h = ground (arith, h)
