-- ===== src/TimeHeap/Same.antt =====
-- What is due, and what the parts of tick leave as it is.
use tiny_web_server_learning.Prelude.{
  ℕ, zero, suc, ◌+◌, ◌<◌, ◌≡◌, refl, ap, true, false, List, [], ◌∷◌, arith, leb, ltb, ◌==◌,
  if◌then◌else◌, Bool-cases, inl, inr,
}
use tiny_web_server_learning.TimeHeap.{Timer, Timers, TimeHeap, pop_timer, call_back}
use tiny_web_server_learning.TimeHeap.Weigh.{weigh}
use tiny_web_server_learning.TimeHeap.Kept.{one}

-- How often a user is in a list.
abbrev pub times : ℕ → List ℕ → ℕ
times u [] = 0
times u (v ∷ s) = one u v + times u s

-- The weights without the timers that are due.
abbrev pub left_by : ℕ → (ℕ → Timer) → (ℕ → ℕ) → ℕ → ℕ
left_by cur timers w p = if leb (timers p).expire cur then 0 else w p

-- How often a timer has `u` called back.
abbrev pub calls_of : ℕ → Timer → ℕ
calls_of u timer = if timer.cb_func then one u timer.user_data else 0

-- And where it is due at `cur`.
abbrev pub due_calls : ℕ → (ℕ → Timer) → ℕ → ℕ → ℕ
due_calls cur timers u p = if leb (timers p).expire cur then calls_of u (timers p) else 0

module _ (cur : ℕ) (timers : ℕ → Timer) where
  late : (p : ℕ) → cur < (timers p).expire → leb (timers p).expire cur ≡ false
  late p h = ground arith

  pub weigh-late :
      (w : ℕ → ℕ) (a : ℕ → ℕ) (n : ℕ)
      → ((i : ℕ) → i < n → cur < (timers (a i)).expire)
      → weigh w a n ≡ weigh (left_by cur timers w) a n
  weigh-late w a zero h = refl
  weigh-late w a (suc n) h =
      let rest = weigh-late w a n λ i l. h i (omega arith) in
      let here = late (a n) (h n (omega arith)) in
      let last : left_by cur timers w (a n) ≡ w (a n) = ap (λ b. if b then 0 else w (a n)) here in
      omega (arith, rest, last)

  pub weigh-no_calls :
      (u : ℕ) (a : ℕ → ℕ) (n : ℕ)
      → ((i : ℕ) → i < n → cur < (timers (a i)).expire)
      → weigh (due_calls cur timers u) a n ≡ 0
  weigh-no_calls u a zero h = refl
  weigh-no_calls u a (suc n) h =
      let rest = weigh-no_calls u a n λ i l. h i (omega arith) in
      let here = late (a n) (h n (omega arith)) in
      let last : due_calls cur timers u (a n) ≡ 0 =
        ap (λ b. if b then calls_of u (timers (a n)) else 0) here in
      omega (arith, rest, last)

pub call_back-called :
    (ts : Timers) (p u : ℕ)
    → times u (call_back ts p).called ≡ calls_of u (ts.at p) + times u ts.called
unfolding call_back
call_back-called ts p u = elim (Bool-cases (ts.at p).cb_func) [
  | inl live ↦ rw live (omega arith)
  | inr dead ↦ rw dead (omega arith)
]

-- The timers, the next pointer and the users' timers are as before.
pub record SameTimers (ts us : Timers) : Type 0 where
  pub at : us.at ≡ ts.at
  pub next : us.next ≡ ts.next
  pub timer_of : us.timer_of ≡ ts.timer_of

pub call_back-SameTimers : (ts : Timers) (p : ℕ) → SameTimers ts (call_back ts p)
unfolding call_back
call_back-SameTimers ts p = elim (Bool-cases (ts.at p).cb_func) [
  | inl live ↦ rw live (record { at = refl; next = refl; timer_of = refl })
  | inr dead ↦ rw dead (record { at = refl; next = refl; timer_of = refl })
]

pub pop_timer-SameTimers : (ts : Timers) (h : TimeHeap) → SameTimers ts (pop_timer ts h).0
unfolding pop_timer
pop_timer-SameTimers ts h = elim (Bool-cases (h.cur_size == 0)) [
  | inl empty ↦ rw empty (record { at = refl; next = refl; timer_of = refl })
  | inr full ↦ rw full (record { at = refl; next = refl; timer_of = refl })
]

pub pop_timer-called : (ts : Timers) (h : TimeHeap) → (pop_timer ts h).0.called ≡ ts.called
unfolding pop_timer
pop_timer-called ts h = elim (Bool-cases (h.cur_size == 0)) [
  | inl empty ↦ rw empty
  | inr full ↦ rw full
]

pub past : (a b : ℕ) → ltb a b ≡ false → leb b a ≡ true
past a b h = ground (arith, h)
