-- ===== src/Memory/Partial.antt =====
-- Partial correctness of runs: what holds of a result, if there is one.
use tiny_web_server_learning.Prelude.{
  ℕ, suc, ◌≡◌, refl, ◌∙◌, Bool, true, false, List, [], ◌∷◌, ◌++◌, Option, none, some, if◌then◌else◌,
  ltb,
}
use tiny_web_server_learning.Memory.{Run, ok, fault, ◌>>=◌, Buffer, store, write_bytes, strcpy}

pub data Allows {ℓ κ} {A : Type ℓ} (P : A → Type κ) : Run A → Type (ℓ ⊔ κ) where
  allows : {a : A} → P a → Allows P (ok a)
  faults : Allows P fault

module _ {ℓ κ} {A : Type ℓ} {P : A → Type κ} where
  -- After a run of which nothing is said.
  pub Allows-any {ℓ'} :
      {B : Type ℓ'} (r : Run B) {f : B → Run A} → ((b : B) → Allows P (f b)) → Allows P (r >>= f)
  Allows-any (ok b) k = k b
  Allows-any fault k = faults

  -- The same, with the equations that the run and the test give.
  pub Allows-ran {ℓ'} :
      {B : Type ℓ'} (r : Run B) {f : B → Run A}
      → ((b : B) → r ≡ ok b → Allows P (f b))
      → Allows P (r >>= f)
  Allows-ran (ok b) k = k b refl
  Allows-ran fault k = faults

  pub Allows-test :
      {x y : Run A} (b : Bool)
      → (b ≡ true → Allows P x)
      → (b ≡ false → Allows P y)
      → Allows P (if b then x else y)
  Allows-test true p q = p refl
  Allows-test false p q = q refl

  pub Allows-bind {ℓ' κ'} :
      {B : Type ℓ'} {Q : B → Type κ'} {r : Run B} {f : B → Run A}
      → Allows Q r
      → ((b : B) → Q b → Allows P (f b))
      → Allows P (r >>= f)
  Allows-bind (allows q) k = k _ q
  Allows-bind faults k = faults

  pub Allows-if : {x y : Run A} (b : Bool) → Allows P x → Allows P y → Allows P (if b then x else y)
  Allows-if true p q = p
  Allows-if false p q = q

  pub Allows-match {ℓ'} :
      {B : Type ℓ'} {x : Run A} {f : B → Run A} (o : Option B)
      → Allows P x
      → ((b : B) → Allows P (f b))
      → Allows P (elim o [ none ↦ x | some b ↦ f b ])
  Allows-match none p q = p
  Allows-match (some b) p q = q b

  pub Allows-map {κ'} :
      {Q : A → Type κ'} {r : Run A} → Allows P r → ((a : A) → P a → Q a) → Allows Q r
  Allows-map (allows p) k = allows (k _ p)
  Allows-map faults k = faults

-- The array keeps its size.
abbrev pub HasSize : ℕ → Buffer → Type 0
HasSize n b = b.size ≡ n

pub store-HasSize : (b : Buffer) (i v : ℕ) → Allows (HasSize b.size) (store b i v)
unfolding store
store-HasSize b i v = Allows-if (ltb i b.size) (allows refl) faults

pub write_bytes-HasSize :
    (b : Buffer) (p : ℕ) (cs : List ℕ) → Allows (HasSize b.size) (write_bytes b p cs)
unfolding write_bytes
write_bytes-HasSize b p [] = allows refl
write_bytes-HasSize b p (c ∷ cs) =
    Allows-bind (store-HasSize b p c)
      λ b' e. Allows-map (write_bytes-HasSize b' (suc p) cs) λ d f. f ∙ e

pub strcpy-HasSize : (b : Buffer) (p : ℕ) (s : List ℕ) → Allows (HasSize b.size) (strcpy b p s)
unfolding strcpy
strcpy-HasSize b p s = write_bytes-HasSize b p (s ++ 0 ∷ [])
