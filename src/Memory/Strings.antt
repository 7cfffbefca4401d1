-- ===== src/Memory/Strings.antt =====
-- Strings in a buffer that is written to: what a write leaves alone, and what it makes.
use tiny_web_server_learning.Prelude.{
  ℕ, suc, ◌+◌, ◌≤◌, ◌<◌, ◌≡◌, refl, ◌∙◌, ◌≢◌, ◌⊎◌, inl, List, [], ◌∷◌, ◌++◌, arith, length, All,
}
use tiny_web_server_learning.Prelude.{Bool-cases, inr, ltb, le→ltb, ltb→lt, length-append}
use tiny_web_server_learning.Memory.Partial.{Allows, allows, faults}
use tiny_web_server_learning.Memory.{fault, store, strcpy, c_string, c_string-ok}
use tiny_web_server_learning.Memory.{ok, Buffer, poke, write_bytes, SpellsAt, store-ok, slice}

abbrev pub NoNul : List ℕ → Type 0
NoNul = All (λ c. c ≢ 0)

pub SpellsAt-NoNul : (b : Buffer) (p : ℕ) (s : List ℕ) → SpellsAt b p s → NoNul s
SpellsAt-NoNul b p [] h = tt
SpellsAt-NoNul b p (c ∷ s) (e, d, r) = (d, SpellsAt-NoNul b (suc p) s r)

-- A string depends on its own bytes and its NUL only.
pub SpellsAt-frame :
    (b b' : Buffer) (p : ℕ) (s : List ℕ)
    → ((j : ℕ) → p ≤ j → j ≤ p + length s → b'.at j ≡ b.at j)
    → SpellsAt b p s
    → SpellsAt b' p s
SpellsAt-frame b b' p [] f h = f p (omega arith) (omega arith) ∙ h
SpellsAt-frame b b' p (c ∷ s) f (e, d, r) = (
  f p (omega arith) (omega arith) ∙ e,
  d,
  SpellsAt-frame b b' (suc p) s (λ j lo hi. f j (omega arith) (omega arith)) r,
)

pub SpellsAt-poke :
    (b : Buffer) (i v p : ℕ) (s : List ℕ)
    → (i < p) ⊎ (p + length s < i)
    → SpellsAt b p s
    → SpellsAt (poke b i v) p s
SpellsAt-poke b i v p s away h = SpellsAt-frame b (poke b i v) p s (λ j lo hi. ground arith) h

-- What stands behind a prefix of a string is a string.
pub SpellsAt-suffix :
    (b : Buffer) (p q : ℕ) (s t : List ℕ)
    → q ≡ p + length s
    → SpellsAt b p (s ++ t)
    → SpellsAt b q t
SpellsAt-suffix b p q [] t e h = let e' : q ≡ p = omega arith in rw e' h
SpellsAt-suffix b p q (c ∷ s) t e (_, _, r) = SpellsAt-suffix b (suc p) q s t (omega arith) r

-- A NUL in the middle cuts a string.
pub SpellsAt-cut :
    (b : Buffer) (p q : ℕ) (s t : List ℕ)
    → q ≡ p + length s
    → SpellsAt b p (s ++ t)
    → SpellsAt (poke b q 0) p s
SpellsAt-cut b p q [] t e h = ground arith
SpellsAt-cut b p q (c ∷ s) t e (f, d, r) =
    (ground arith, d, SpellsAt-cut b (suc p) q s t (omega arith) r)

-- The bytes `cs` written over those at `p`, without the bounds check.
abbrev pub written : Buffer → ℕ → List ℕ → Buffer
written b p [] = b
written b p (c ∷ cs) = written (poke b p c) (suc p) cs

pub write_bytes-ok :
    (b : Buffer) (p : ℕ) (cs : List ℕ)
    → p + length cs ≤ b.size
    → write_bytes b p cs ≡ ok (written b p cs)
unfolding write_bytes
write_bytes-ok b p [] h = refl
write_bytes-ok b p (c ∷ cs) h =
    rw (store-ok b p c (omega arith)) (write_bytes-ok (poke b p c) (suc p) cs (omega arith))

pub size-written : (b : Buffer) (p : ℕ) (cs : List ℕ) → (written b p cs).size ≡ b.size
size-written b p [] = refl
size-written b p (c ∷ cs) = size-written (poke b p c) (suc p) cs

-- A write leaves all bytes outside its range alone.
pub at-written :
    (b : Buffer) (p : ℕ) (cs : List ℕ) (j : ℕ)
    → (j < p) ⊎ (p + length cs ≤ j)
    → (written b p cs).at j ≡ b.at j
at-written b p [] j h = refl
at-written b p (c ∷ cs) j h = at-written (poke b p c) (suc p) cs j (omega arith) ∙ ground arith

pub SpellsAt-written :
    (b : Buffer) (p : ℕ) (s : List ℕ) → NoNul s → SpellsAt (written b p (s ++ 0 ∷ [])) p s
SpellsAt-written b p [] h = ground arith
SpellsAt-written b p (c ∷ s) (d, r) = (
  at-written (poke b p c) (suc p) (s ++ 0 ∷ []) p (inl (omega arith)) ∙ ground arith,
  d,
  SpellsAt-written (poke b p c) (suc p) s r,
)

-- The written bytes can be read back.
pub slice-written : (b : Buffer) (p : ℕ) (cs : List ℕ) → slice (written b p cs) p (length cs) ≡ cs
slice-written b p [] = refl
slice-written b p (c ∷ cs) = ground (
  arith,
  at-written (poke b p c) (suc p) cs p (inl (omega arith)),
  slice-written (poke b p c) (suc p) cs,
)

-- A write that does not fit is a fault.
pub write_bytes-fault :
    (b : Buffer) (p : ℕ) (cs : List ℕ)
    → 0 < length cs
    → b.size < p + length cs
    → write_bytes b p cs ≡ fault
unfolding write_bytes store
write_bytes-fault b p [] pos h = absurd (omega arith)
write_bytes-fault b p (c ∷ []) pos h = rw (le→ltb p b.size (omega arith))
write_bytes-fault b p (c ∷ d ∷ cs) pos h = elim (Bool-cases (ltb p b.size)) [
  | inl fits ↦ rw fits (write_bytes-fault (poke b p c) (suc p) (d ∷ cs) (omega arith) (omega arith))
  | inr full ↦ rw full
]

-- What strcpy wrote can be read back.
pub strcpy-c_string :
    (b : Buffer) (p : ℕ) (s : List ℕ) → NoNul s → Allows (λ b'. c_string b' p ≡ ok s) (strcpy b p s)
unfolding strcpy
strcpy-c_string b p s h = elim (Bool-cases (ltb (p + length s) b.size)) [
  | inl fits ↦
      let room : p + length s < b.size = ltb→lt _ _ fits in
      let long = length-append s (0 ∷ []) in
      rw (write_bytes-ok b p (s ++ 0 ∷ []) (omega (arith, long))) (
        allows (
          c_string-ok (written b p (s ++ 0 ∷ [])) p s (record {
            inside = omega (arith, size-written b p (s ++ 0 ∷ []));
            spells = SpellsAt-written b p s h;
          })))
  | inr full ↦
      let long = length-append s (0 ∷ []) in
      rw (write_bytes-fault b p (s ++ 0 ∷ []) (omega (arith, long)) (ground (arith, long))) faults
]
