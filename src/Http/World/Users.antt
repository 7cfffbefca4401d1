-- ===== src/Http/World/Users.antt =====
-- The map `users`: what an insertion changes.
use tiny_web_server_learning.Prelude.{
  ℕ, ◌≡◌, ◌≢◌, sym, ◌∙◌, ap, false, List, [], ◌∷◌, some, Bool-cases, inl, inr, if◌then◌else◌,
}
use tiny_web_server_learning.CString.{same_bytes}
use tiny_web_server_learning.CString.Laws.{same_bytes-eq, same_bytes_refl}
use tiny_web_server_learning.Http.World.{Users, find_user, set_user}

-- A user that is added is found.
pub find_user-set_user_self : (k v : List ℕ) (m : Users) → find_user k (set_user k v m) ≡ some v
unfolding find_user set_user
find_user-set_user_self k v [] = rw (same_bytes_refl k)
find_user-set_user_self k v ((j, w) ∷ m) = elim (Bool-cases (same_bytes j k)) [
  | inl hit ↦ rw (hit, same_bytes_refl k)
  | inr miss ↦ rw (miss, miss, find_user-set_user_self k v m)
]

-- The other users stay as they are.
pub find_user-set_user_ne :
    (k j v : List ℕ) (m : Users) → k ≢ j → find_user j (set_user k v m) ≡ find_user j m
unfolding find_user set_user
find_user-set_user_ne k j v [] h = elim (Bool-cases (same_bytes k j)) [
  | inl hit ↦ absurd (h (same_bytes-eq k j hit))
  | inr miss ↦ rw miss
]
find_user-set_user_ne k j v ((i, w) ∷ m) h = elim (Bool-cases (same_bytes i k)) [
  | inl same ↦
      let e : i ≡ k = same_bytes-eq i k same in
      elim (Bool-cases (same_bytes k j)) [
        | inl hit ↦ absurd (h (same_bytes-eq k j hit))
        | inr miss ↦ rw (same, miss, e, miss)
      ]
  | inr other ↦ rw (other, find_user-set_user_ne k j v m h)
]

-- The map finds, under each name, what was put there last: after an insertion it has the new value
-- under the name of the insertion, and under any other what it had before.
pub find_user-set_user :
    (k j v : List ℕ) (m : Users)
    → find_user j (set_user k v m) ≡ (if same_bytes k j then some v else find_user j m)
find_user-set_user k j v m = elim (Bool-cases (same_bytes k j)) [
  | inl hit ↦
      let e : k ≡ j = same_bytes-eq k j hit in rw hit (rw⁻¹ e (find_user-set_user_self k v m))
  | inr miss ↦ rw miss (find_user-set_user_ne k j v m λ e. differ (ap (same_bytes k) (sym e)) miss)
]
  where
    differ : same_bytes k j ≡ same_bytes k k → same_bytes k j ≡ false → ⊥
    differ e miss = cc (sym miss ∙ e ∙ same_bytes_refl k)
