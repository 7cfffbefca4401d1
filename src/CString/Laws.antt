-- ===== src/CString/Laws.antt =====
-- What the string functions find: a hit splits the string.
use tiny_web_server_learning.Prelude.{
  ℕ, zero, suc, ◌≡◌, refl, ap, sym, ◌∙◌, true, false, List, [], ◌∷◌, ◌++◌, map, some, arith, ◌==◌,
  ==_iff, length, take, Bool-cases, Option-cases, inl, inr,
}
use tiny_web_server_learning.Prelude.{All}
use tiny_web_server_learning.CString.{
  contains, strpbrk, strspn, strchr, to_lower, same_bytes, strcasecmp_eq, strncasecmp_eq, to_int,
  int_of_word,
}
use tiny_web_server_learning.Prelude.{◌<◌, ◌^◌}
use tiny_web_server_learning.Prelude.Int.{pos}

-- `s` is `a ++ x ∷ t`, with `x` at index `i`.
pub record SplitAt (s : List ℕ) (i : ℕ) : Type 0 where
  pub before : List ℕ
  pub here : ℕ
  pub after : List ℕ
  pub whole : s ≡ before ++ here ∷ after
  pub index : length before ≡ i

SplitAt-suc : (c : ℕ) {s : List ℕ} {i : ℕ} → SplitAt s i → SplitAt (c ∷ s) (suc i)
SplitAt-suc c h = record {
  before = c ∷ h.before;
  here = h.here;
  after = h.after;
  whole = ap (◌∷◌ c) h.whole;
  index = ap suc h.index;
}

SplitAt-zero : (c : ℕ) (s : List ℕ) → SplitAt (c ∷ s) 0
SplitAt-zero c s = record { before = []; here = c; after = s; whole = refl; index = refl }

pub strpbrk-SplitAt : (s accept : List ℕ) (i : ℕ) → strpbrk s accept ≡ some i → SplitAt s i
unfolding strpbrk
strpbrk-SplitAt [] accept i h = cc
strpbrk-SplitAt (c ∷ s) accept i h = elim (Bool-cases (contains c accept)) [
  | inl hit ↦ let e : i ≡ 0 = ground arith in rw e (SplitAt-zero c s)
  | inr miss ↦ elim (Option-cases (strpbrk s accept)) [
    | inl e ↦ ground arith
    | inr (k, e) ↦
        let e' : i ≡ suc k = ground arith in rw e' (SplitAt-suc c (strpbrk-SplitAt s accept k e))
  ]
]

-- strchr finds the byte itself.
pub strchr-SplitAt : (s : List ℕ) (d i : ℕ) → strchr s d ≡ some i → (h : SplitAt s i) × (h.here ≡ d)
unfolding strchr SplitAt-zero SplitAt-suc
strchr-SplitAt [] d i h = cc
strchr-SplitAt (c ∷ s) d i h = elim (Bool-cases (c == d)) [
  | inl hit ↦ let e : i ≡ 0 = ground arith in rw e (SplitAt-zero c s, (==_iff c d).0 hit)
  | inr miss ↦ elim (Option-cases (strchr s d)) [
    | inl e ↦ ground arith
    | inr (k, e) ↦
        let e' : i ≡ suc k = ground arith in
        let (split, is) = strchr-SplitAt s d k e in rw e' (SplitAt-suc c split, is)
  ]
]

-- `s` is `a ++ t` with `a` of length `n`.
pub record Prefixed (s : List ℕ) (n : ℕ) : Type 0 where
  pub front : List ℕ
  pub back : List ℕ
  pub whole : s ≡ front ++ back
  pub index : length front ≡ n

Prefixed-suc : (c : ℕ) {s : List ℕ} {n : ℕ} → Prefixed s n → Prefixed (c ∷ s) (suc n)
Prefixed-suc c h = record {
  front = c ∷ h.front;
  back = h.back;
  whole = ap (◌∷◌ c) h.whole;
  index = ap suc h.index;
}

pub Prefixed-zero : (s : List ℕ) → Prefixed s 0
Prefixed-zero s = record { front = []; back = s; whole = refl; index = refl }

pub strspn-Prefixed : (s accept : List ℕ) → Prefixed s (strspn s accept)
unfolding strspn
strspn-Prefixed [] accept = Prefixed-zero []
strspn-Prefixed (c ∷ s) accept = elim (Bool-cases (contains c accept)) [
  | inl hit ↦ rw hit (Prefixed-suc c (strspn-Prefixed s accept))
  | inr miss ↦ rw miss (Prefixed-zero (c ∷ s))
]

pub take-Prefixed : (n : ℕ) (s : List ℕ) → length (take n s) ≡ n → Prefixed s n
take-Prefixed zero s h = Prefixed-zero s
take-Prefixed (suc n) [] h = absurd (omega arith)
take-Prefixed (suc n) (c ∷ s) h = Prefixed-suc c (take-Prefixed n s (omega arith))

pub same_bytes-eq : (s t : List ℕ) → same_bytes s t ≡ true → s ≡ t
unfolding same_bytes
same_bytes-eq [] [] h = refl
same_bytes-eq [] (d ∷ t) h = cc
same_bytes-eq (c ∷ s) [] h = cc
same_bytes-eq (c ∷ s) (d ∷ t) h = ground (arith, same_bytes-eq s t)

pub length-map : (f : ℕ → ℕ) (s : List ℕ) → length (map f s) ≡ length s
length-map f [] = refl
length-map f (c ∷ s) = ap suc (length-map f s)

-- Strings that are equal up to case have the same length.
pub strcasecmp_eq-length : (s t : List ℕ) → strcasecmp_eq s t ≡ true → length s ≡ length t
unfolding strcasecmp_eq
strcasecmp_eq-length s t h =
    sym (length-map to_lower s) ∙ ap length (same_bytes-eq _ _ h) ∙ length-map to_lower t

pub strncasecmp_eq-Prefixed :
    (s t : List ℕ) (n : ℕ) → length (take n t) ≡ n → strncasecmp_eq s t n ≡ true → Prefixed s n
unfolding strncasecmp_eq
strncasecmp_eq-Prefixed s t n e h =
    take-Prefixed n s (strcasecmp_eq-length (take n s) (take n t) h ∙ e)

-- strpbrk passes over bytes that it does not look for, and stops at the first that it does.
pub strpbrk-append :
    (a t accept : List ℕ) (x : ℕ)
    → All (λ c. contains c accept ≡ false) a
    → contains x accept ≡ true
    → strpbrk (a ++ x ∷ t) accept ≡ some (length a)
unfolding strpbrk
strpbrk-append [] t accept x h hit = rw hit
strpbrk-append (c ∷ a) t accept x (miss, h) hit = rw (miss, strpbrk-append a t accept x h hit)

pub same_bytes_refl : (s : List ℕ) → same_bytes s s ≡ true
unfolding same_bytes
same_bytes_refl [] = refl
same_bytes_refl (c ∷ s) = ground (arith, same_bytes_refl s)

-- A number that an int holds stays as it is.
pub to_int-pos : (n : ℕ) → n < 2 ^ 31 → to_int (pos n) ≡ pos n
unfolding to_int int_of_word
to_int-pos n h = ground arith
