-- ===== src/CString/Pieces.antt =====
-- A string in memory that a search splits: its pieces, at their places.
use tiny_web_server_learning.Prelude.{
  ℕ, suc, ◌+◌, ◌≡◌, ap, inl, List, [], ◌∷◌, arith, length, length-append, subst,
}
use tiny_web_server_learning.Memory.{Buffer, poke, SpellsAt, IsString}
use tiny_web_server_learning.Memory.Strings.{SpellsAt-poke, SpellsAt-cut, SpellsAt-suffix}
use tiny_web_server_learning.CString.Laws.{SplitAt, Prefixed}

pub length-SplitAt : {s : List ℕ} {i : ℕ} (h : SplitAt s i) → length s ≡ i + suc (length h.after)
length-SplitAt h =
    omega (arith, ap length h.whole, length-append h.before (h.here ∷ h.after), h.index)

pub length-Prefixed : {s : List ℕ} {n : ℕ} (h : Prefixed s n) → length s ≡ n + length h.back
length-Prefixed h = omega (arith, ap length h.whole, length-append h.front h.back, h.index)

module _ (b : Buffer) (p : ℕ) (s : List ℕ) {n : ℕ} (v : IsString b p s) where
  -- A NUL over the hit ends the string there.
  pub IsString-before : (h : SplitAt s n) → IsString (poke b (p + n) 0) p h.before
  IsString-before h = record {
    inside = omega (arith, length-SplitAt h, v.inside, h.index);
    spells =
        SpellsAt-cut b p (p + n) h.before (h.here ∷ h.after) (omega (arith, h.index))
          (subst (SpellsAt b p) h.whole v.spells);
  }

  -- The string behind the hit is still there.
  pub IsString-after : (h : SplitAt s n) → IsString (poke b (p + n) 0) (p + suc n) h.after
  IsString-after h = record {
    inside = omega (arith, length-SplitAt h, v.inside);
    spells = SpellsAt-poke b (p + n) 0 (p + suc n) h.after (inl (omega arith)) (
        SpellsAt-suffix b (p + n) (p + suc n) (h.here ∷ []) h.after (omega arith) (
          SpellsAt-suffix b p (p + n) h.before (h.here ∷ h.after) (omega (arith, h.index))
            (subst (SpellsAt b p) h.whole v.spells)));
  }

  -- A string from the hit on.
  pub IsString-from : (h : SplitAt s n) → IsString b (p + n) (h.here ∷ h.after)
  IsString-from h = record {
    inside = omega (arith, length-SplitAt h, v.inside);
    spells =
        SpellsAt-suffix b p (p + n) h.before (h.here ∷ h.after) (omega (arith, h.index))
          (subst (SpellsAt b p) h.whole v.spells);
  }

  pub IsString-back : (h : Prefixed s n) → IsString b (p + n) h.back
  IsString-back h = record {
    inside = omega (arith, length-Prefixed h, v.inside);
    spells =
        SpellsAt-suffix b p (p + n) h.front h.back (omega (arith, h.index))
          (subst (SpellsAt b p) h.whole v.spells);
  }
