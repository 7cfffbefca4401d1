-- ===== src/Memory.antt =====
-- C memory as the connection code uses it: byte arrays with bounds, and NUL-terminated strings in
-- them. A run that touches memory out of bounds, or reads a string without end, is a
-- `fault`.
pub mod Strings
pub mod Partial
pub mod Bytes
use tiny_web_server_learning.Prelude.{Option, none, some}
use tiny_web_server_learning.Prelude.{
  ℕ, zero, suc, ◌+◌, ◌-◌, ◌<◌, ◌≤◌, ◌≡◌, refl, ◌∙◌, ◌≢◌, ◌⊎◌, Bool, true, false, List, [], ◌∷◌,
  ◌++◌, arith, ltb, ◌==◌, if◌then◌else◌, length, lt→ltb,
}

pub data Run {ℓ} (A : Type ℓ) : Type ℓ where
  ok : A → Run A
  fault : Run A

infixl 5 ◌>>=◌ ◌>>◌
abbrev pub ◌>>=◌ {ℓ κ} : {A : Type ℓ} {B : Type κ} → Run A → (A → Run B) → Run B
ok a >>= f = f a
fault >>= f = fault

abbrev pub ◌>>◌ {ℓ} : {B : Type ℓ} → Run (Unit {0}) → Run B → Run B
m >> k = m >>= λ _. k

-- A step of a loop on fuel, where `none` means that the fuel ran out: a fault ends the loop.
abbrev pub and_then {ℓ κ} :
    {A : Type ℓ} {B : Type κ} → Run A → (A → Option (Run B)) → Option (Run B)
and_then (ok a) f = f a
and_then fault f = some fault

pub ok-injective {ℓ} : {A : Type ℓ} {a b : A} → ok a ≡ ok b → a ≡ b
ok-injective h = cc

-- The run ends without a fault, in a value that has the property.
pub data Returns {ℓ κ} {V : Type ℓ} (Good : V → Type κ) : Run V → Type (ℓ ⊔ κ) where
  returns : {v : V} → Good v → Returns Good (ok v)

module _ {ℓ κ} {V : Type ℓ} {Good : V → Type κ} where
  pub Returns-inv : {m : Run V} → Returns Good m → (v : V) × (m ≡ ok v) × Good v
  Returns-inv (returns {v} good) = (v, refl, good)

  -- A match on an option.
  pub Returns-match {ℓ'} :
      {W : Type ℓ'} {m : Run V} {k : W → Run V} (found : Option W)
      → (found ≡ none → Returns Good m)
      → ((w : W) → found ≡ some w → Returns Good (k w))
      → Returns Good (elim found [ none ↦ m | some w ↦ k w ])
  Returns-match none absent present = absent refl
  Returns-match (some w) absent present = present w refl

  -- A test.
  pub Returns-if :
      {m n : Run V} (test : Bool)
      → (test ≡ true → Returns Good m)
      → (test ≡ false → Returns Good n)
      → Returns Good (if test then m else n)
  Returns-if false holds fails = fails refl
  Returns-if true holds fails = holds refl

  pub Returns-map {κ'} :
      {m : Run V} {Better : V → Type κ'}
      → Returns Good m
      → ((v : V) → Good v → Better v)
      → Returns Better m
  Returns-map (returns good) improve = returns (improve _ good)

  -- What comes next may rely on what came before.
  pub Returns-bind {ℓ' κ'} :
      {W : Type ℓ'} {m : Run V} {next : V → Run W} {Fine : W → Type κ'}
      → Returns Good m
      → ((v : V) → Good v → Returns Fine (next v))
      → Returns Fine (m >>= next)
  Returns-bind (returns good) continue = continue _ good

-- An array of `size` bytes.
pub record Buffer : Type 0 where
  pub size : ℕ
  pub at : ℕ → ℕ

abbrev pub update : (ℕ → ℕ) → ℕ → ℕ → ℕ → ℕ
update f i v j = if i == j then v else f j

abbrev pub poke : Buffer → ℕ → ℕ → Buffer
poke b i v = record b { at = update b.at i v }

-- `b[i]`
unfoldable pub load : Buffer → ℕ → Run ℕ
load b i = if ltb i b.size then ok (b.at i) else fault

-- `b[i] = v`
unfoldable pub store : Buffer → ℕ → ℕ → Run Buffer
store b i v = if ltb i b.size then ok (poke b i v) else fault

-- memcpy of `cs` to `b + p`
unfoldable pub write_bytes : Buffer → ℕ → List ℕ → Run Buffer
write_bytes b p [] = ok b
write_bytes b p (c ∷ cs) = store b p c >>= λ b'. write_bytes b' (suc p) cs

-- strcpy of the string `s` to `b + p`
unfoldable pub strcpy : Buffer → ℕ → List ℕ → Run Buffer
unfolding write_bytes store
strcpy b p s = write_bytes b p (s ++ 0 ∷ [])

c_string_from : ℕ → Buffer → ℕ → Run (List ℕ)
c_string_from zero b p = fault
c_string_from (suc n) b p =
    let rest = c_string_from n b (suc p) >>= λ s. ok (b.at p ∷ s) in
    if b.at p == 0 then ok [] else rest

-- the string at `b + p`, up to its NUL
unfoldable pub c_string : Buffer → ℕ → Run (List ℕ)
unfolding c_string_from
c_string b p = c_string_from (b.size - p) b p

-- the `n` bytes at `b + p`
abbrev pub slice : Buffer → ℕ → ℕ → List ℕ
slice b p zero = []
slice b p (suc n) = b.at p ∷ slice b (suc p) n

pub load-ok : (b : Buffer) (i : ℕ) → i < b.size → load b i ≡ ok (b.at i)
unfolding load
load-ok b i h = rw (lt→ltb i b.size h)

pub store-ok : (b : Buffer) (i v : ℕ) → i < b.size → store b i v ≡ ok (poke b i v)
unfolding store
store-ok b i v h = rw (lt→ltb i b.size h)

-- `b` holds the bytes of `s` and a NUL from `p` on.
abbrev pub SpellsAt : Buffer → ℕ → List ℕ → Type 0
SpellsAt b p [] = b.at p ≡ 0
SpellsAt b p (c ∷ s) = (b.at p ≡ c) × (c ≢ 0) × SpellsAt b (suc p) s

-- `s` is the string at `b + p`.
pub record IsString (b : Buffer) (p : ℕ) (s : List ℕ) : Type 0 where
  pub inside : p + length s < b.size
  pub spells : SpellsAt b p s

c_string_from-ok :
    (n : ℕ) (b : Buffer) (p : ℕ) (s : List ℕ)
    → length s < n
    → SpellsAt b p s
    → c_string_from n b p ≡ ok s
unfolding c_string_from
c_string_from-ok zero b p s h q = absurd (omega arith)
c_string_from-ok (suc n) b p [] h q = rw q
c_string_from-ok (suc n) b p (c ∷ s) h (e, d, r) =
    ground (arith, c_string_from-ok n b (suc p) s (omega arith) r)

-- The string that the memory spells is the one that is read.
pub c_string-ok : (b : Buffer) (p : ℕ) (s : List ℕ) → IsString b p s → c_string b p ≡ ok s
unfolding c_string
c_string-ok b p s h = c_string_from-ok (b.size - p) b p s (omega (arith, h.inside)) h.spells
