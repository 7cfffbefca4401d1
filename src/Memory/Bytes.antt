-- ===== src/Memory/Bytes.antt =====
-- Bytes that stand in memory with no NUL behind them.
use tiny_web_server_learning.Prelude.{
  ℕ, suc, ◌+◌, ◌≤◌, ◌<◌, ◌≡◌, sym, ◌∙◌, inl, List, [], ◌∷◌, ◌++◌, arith, length,
}
use tiny_web_server_learning.Memory.{Buffer, poke, SpellsAt}
use tiny_web_server_learning.Memory.Strings.{NoNul, written, at-written}

-- The bytes of `s` stand in `b` from `p` on.
abbrev pub Bytes : Buffer → ℕ → List ℕ → Type 0
Bytes b p [] = Unit {0}
Bytes b p (x ∷ s) = (b.at p ≡ x) × Bytes b (suc p) s

pub Bytes-frame :
    (b b' : Buffer) (p : ℕ) (s : List ℕ)
    → ((j : ℕ) → j < p + length s → b'.at j ≡ b.at j)
    → Bytes b p s
    → Bytes b' p s
Bytes-frame b b' p [] f h = tt
Bytes-frame b b' p (x ∷ s) f (e, r) =
    (f p (omega arith) ∙ e, Bytes-frame b b' (suc p) s (λ j lo. f j (omega arith)) r)

pub Bytes-append :
    (b : Buffer) (p q : ℕ) (s t : List ℕ)
    → q ≡ p + length s
    → Bytes b p s
    → Bytes b q t
    → Bytes b p (s ++ t)
Bytes-append b p q [] t e h k = let e' : q ≡ p = omega arith in rw (sym e') k
Bytes-append b p q (x ∷ s) t e (f, h) k = (f, Bytes-append b (suc p) q s t (omega arith) h k)

pub Bytes-written : (b : Buffer) (p : ℕ) (s t : List ℕ) → Bytes (written b p (s ++ t)) p s
Bytes-written b p [] t = tt
Bytes-written b p (x ∷ s) t = (
  at-written (poke b p x) (suc p) (s ++ t) p (inl (omega arith)) ∙ ground arith,
  Bytes-written (poke b p x) (suc p) s t,
)

-- With a NUL behind them they are a string.
pub SpellsAt-Bytes :
    (b : Buffer) (p q : ℕ) (s : List ℕ)
    → q ≡ p + length s
    → NoNul s
    → Bytes b p s
    → b.at q ≡ 0
    → SpellsAt b p s
SpellsAt-Bytes b p q [] e h k z = let e' : q ≡ p = omega (arith, e) in rw (sym e') z
SpellsAt-Bytes b p q (x ∷ s) e (x0, h) (here, k) z =
    (here, x0, SpellsAt-Bytes b (suc p) q s (omega (arith, e)) h k z)

pub Bytes-front : (b : Buffer) (p : ℕ) (s t : List ℕ) → Bytes b p (s ++ t) → Bytes b p s
Bytes-front b p [] t h = tt
Bytes-front b p (x ∷ s) t (e, h) = (e, Bytes-front b (suc p) s t h)

pub Bytes-back :
    (b : Buffer) (p q : ℕ) (s t : List ℕ) → q ≡ p + length s → Bytes b p (s ++ t) → Bytes b q t
Bytes-back b p q [] t e h = let e' : q ≡ p = omega (arith, e) in rw e' h
Bytes-back b p q (x ∷ s) t e (_, h) = Bytes-back b (suc p) q s t (omega (arith, e)) h

-- Bytes depend on what stands from their place on.
pub Bytes-from :
    (b b' : Buffer) (p : ℕ) (s : List ℕ)
    → ((j : ℕ) → p ≤ j → b'.at j ≡ b.at j)
    → Bytes b p s
    → Bytes b' p s
Bytes-from b b' p [] f h = tt
Bytes-from b b' p (x ∷ s) f (e, h) =
    (f p (omega arith) ∙ e, Bytes-from b b' (suc p) s (λ j lo. f j (omega arith)) h)
