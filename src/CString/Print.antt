-- ===== src/CString/Print.antt =====
-- snprintf and vsnprintf of <stdio.h>: the text of a number, and a text that is cut to its room.
use tiny_web_server_learning.Prelude.{
  ℕ, zero, suc, ◌+◌, ◌-◌, ◌*◌, ◌/◌, ◌%◌, ◌^◌, ◌≤◌, ◌<◌, ◌≡◌, refl, ap, arith, List, [], ◌∷◌, ◌++◌,
  Bool-cases, inl, inr, false, ltb, if◌then◌else◌, length, length-append, replicate,
  length-replicate, take,
}
use tiny_web_server_learning.Prelude.Int.{ℤ, pos, negsuc}
use tiny_web_server_learning.Memory.{Run, ok, Buffer, write_bytes}
use tiny_web_server_learning.Memory.Partial.{Allows, allows, HasSize, write_bytes-HasSize}
use tiny_web_server_learning.Memory.Strings.{NoNul, written, write_bytes-ok}

-- The digits of `n` in front of `s`; the fuel is a bound of their number.
unfoldable pub decimal_before : ℕ → ℕ → List ℕ → List ℕ
decimal_before zero n s = s
decimal_before (suc k) n s =
    let digits = (b'0' + n % 10) ∷ s in
    let rest = decimal_before k (n / 10) digits in if ltb n 10 then digits else rest

-- `%d` of an int
abbrev pub decimal : ℤ → List ℕ
decimal (pos n) = decimal_before 10 n []
decimal (negsuc n) = b'-' ∷ decimal_before 10 (suc n) []

-- `%02d`, with `w` for the 2: zeros in front, up to the width.
unfoldable pub padded : ℕ → ℕ → List ℕ
padded w n = let s = decimal_before 20 n [] in replicate (w - length s) b'0' ++ s

-- vsnprintf of `text` at `b + p`, with room for `n` bytes
unfoldable pub print_at : Buffer → ℕ → ℕ → List ℕ → Run Buffer
print_at b p zero text = ok b
print_at b p (suc n) text = write_bytes b p (take n text ++ 0 ∷ [])

pub take_all : {A : Type 0} (n : ℕ) (s : List A) → length s ≤ n → take n s ≡ s
take_all zero [] h = refl
take_all zero (x ∷ s) h = absurd (omega arith)
take_all (suc n) [] h = refl
take_all (suc n) (x ∷ s) h = ap (◌∷◌ x) (take_all n s (omega arith))

pub length-take_le : {A : Type 0} (n : ℕ) (s : List A) → length (take n s) ≤ n
length-take_le zero s = omega arith
length-take_le (suc n) [] = omega arith
length-take_le (suc n) (x ∷ s) = let h = length-take_le n s in omega arith

pub print_at-ok :
    (b : Buffer) (p n : ℕ) (t : List ℕ)
    → p + suc n ≤ b.size
    → print_at b p (suc n) t ≡ ok (written b p (take n t ++ 0 ∷ []))
unfolding print_at
print_at-ok b p n t h =
    write_bytes-ok b p (take n t ++ 0 ∷ [])
      (omega (arith, length-append (take n t) (0 ∷ []), length-take_le n t))

-- A text that the room is enough for.
pub print_at-whole :
    (b : Buffer) (p n : ℕ) (t : List ℕ)
    → length t < n
    → p + length t < b.size
    → print_at b p n t ≡ ok (written b p (t ++ 0 ∷ []))
unfolding print_at
print_at-whole b p zero t few room = absurd (omega arith)
print_at-whole b p (suc n) t few room =
    rw (take_all n t (omega arith))
      (write_bytes-ok b p (t ++ 0 ∷ []) (omega (arith, length-append t (0 ∷ []))))

pub print_at-HasSize :
    (b : Buffer) (p n : ℕ) (t : List ℕ) → Allows (HasSize b.size) (print_at b p n t)
unfolding print_at
print_at-HasSize b p zero t = allows refl
print_at-HasSize b p (suc n) t = write_bytes-HasSize b p (take n t ++ 0 ∷ [])

pub NoNul-append : (s t : List ℕ) → NoNul s → NoNul t → NoNul (s ++ t)
NoNul-append [] t h k = k
NoNul-append (c ∷ s) t (e, h) k = (e, NoNul-append s t h k)

pub NoNul-decimal_before : (k n : ℕ) (s : List ℕ) → NoNul s → NoNul (decimal_before k n s)
unfolding decimal_before
NoNul-decimal_before zero n s h = h
NoNul-decimal_before (suc k) n s h =
    let d : NoNul ((b'0' + n % 10) ∷ s) = (λ e. absurd (omega (arith, e)), h) in
    elim (Bool-cases (ltb n 10)) [
      | inl last ↦ rw last d
      | inr more ↦ rw more (NoNul-decimal_before k (n / 10) ((b'0' + n % 10) ∷ s) d)
    ]

NoNul-replicate : (n c : ℕ) → NoNul (replicate n (suc c))
NoNul-replicate zero c = tt
NoNul-replicate (suc n) c = (λ e. absurd (omega (arith, e)), NoNul-replicate n c)

pub NoNul-padded : (w n : ℕ) → NoNul (padded w n)
unfolding padded
NoNul-padded w n =
    NoNul-append (replicate (w - length (decimal_before 20 n [])) 48) (decimal_before 20 n [])
      (NoNul-replicate (w - length (decimal_before 20 n [])) 47) (NoNul-decimal_before 20 n [] tt)

two_digits : (m : ℕ) → ltb m 10 ≡ false → 10 ≤ m
two_digits m e = ground (arith, e)

tenth : (m t : ℕ) → m < t * 10 → m / 10 < t
tenth m t l = omega arith

pub length-decimal_before :
    (f k n : ℕ) (s : List ℕ) → n < 10 ^ suc k → length (decimal_before f n s) ≤ suc k + length s
unfolding decimal_before
length-decimal_before zero k n s h = omega arith
length-decimal_before (suc f) zero n s h = elim (Bool-cases (ltb n 10)) [
  | inl last ↦ rw last (omega arith)
  | inr more ↦ absurd (omega (arith, two_digits n more, h))
]
length-decimal_before (suc f) (suc k) n s h = elim (Bool-cases (ltb n 10)) [
  | inl last ↦ rw last (omega arith)
  | inr more ↦
      let rest =
        length-decimal_before f k (n / 10) ((b'0' + n % 10) ∷ s)
          (tenth n (10 ^ suc k) (omega (arith, h))) in
      rw more (omega (arith, rest))
]

-- A number that has no more digits than the width takes the width.
pub length-padded : (k n : ℕ) → n < 10 ^ suc k → length (padded (suc k) n) ≡ suc k
unfolding padded
length-padded k n h =
    let s = decimal_before 20 n [] in
    omega (
      arith,
      length-append (replicate (suc k - length s) b'0') s,
      length-replicate {A = ℕ} (suc k - length s) b'0',
      length-decimal_before 20 k n [] h,
    )
