-- ===== src/TimeHeap/Kept.antt =====
-- No timer is lost: how often a pointer is in the heap, before and after each operation.
use tiny_web_server_learning.Prelude.{
  ℕ, zero, suc, ◌+◌, ◌-◌, ◌<◌, ◌≡◌, ◌≢◌, refl, ◌∙◌, ap, Bool, true, false, arith, leb, ltb, ◌==◌,
  if◌then◌else◌, Bool-cases, inl, inr,
}
use tiny_web_server_learning.TimeHeap.{
  Timers, TimeHeap, expire_of, add_timer, resize, pop_timer, call_back, tick_loop, tick,
}
use tiny_web_server_learning.TimeHeap.Weigh.{weigh, weigh-put_timer, weigh-resize, weigh-pop_timer}

abbrev pub one : ℕ → ℕ → ℕ
one p q = if p == q then 1 else 0

-- How often `p` is among the first `n` entries.
abbrev pub tally : ℕ → (ℕ → ℕ) → ℕ → ℕ
tally p a n = weigh (one p) a n

pub tally-add_timer :
    (ts : Timers) (h : TimeHeap) (timer p : ℕ)
    → let g = add_timer ts timer h in
      tally p g.array g.cur_size ≡ tally p h.array h.cur_size + (if p == timer then 1 else 0)
unfolding add_timer
tally-add_timer ts h timer p =
    let full = leb h.capacity h.cur_size in
    weigh-put_timer (one p) ts (if full then resize h else h) timer
    ∙ ap (λ k. k + one p timer) (weigh-resize (one p) h full)

pub call_back-at : (ts : Timers) (p : ℕ) → (call_back ts p).at ≡ ts.at
unfolding call_back
call_back-at ts p = elim (Bool-cases (ts.at p).cb_func) [ inl live ↦ rw live | inr dead ↦ rw dead ]

-- `p` is `m` times in the heap.
record Holds (p m : ℕ) (x : Timers × TimeHeap) : Type 0 where
  same : tally p x.1.array x.1.cur_size ≡ m

Holds-if :
    {x y : Timers × TimeHeap} (p m : ℕ) (b : Bool)
    → (b ≡ true → Holds p m x)
    → (b ≡ false → Holds p m y)
    → Holds p m (if b then x else y)
Holds-if p m true h k = h refl
Holds-if p m false h k = k refl

one-other : (p q : ℕ) → p ≢ q → one p q ≡ 0
one-other p q ne = ground arith

tick_loop-Holds :
    (n cur p : ℕ) (ts : Timers) (h : TimeHeap)
    → cur < expire_of ts p
    → Holds p (tally p h.array h.cur_size) (tick_loop n cur ts h)
unfolding tick_loop
tick_loop-Holds zero cur p ts h late = record { same = refl }
tick_loop-Holds (suc n) cur p ts h late =
    Holds-if p (tally p h.array h.cur_size) (h.cur_size == 0) (λ _. record { same = refl })
      λ full.
        Holds-if p (tally p h.array h.cur_size) (ltb cur (expire_of ts (h.array 0)))
          (λ _. record { same = refl })
          λ due.
            let some_left : h.cur_size ≡ suc (h.cur_size - 1) = ground (arith, full) in
            let us = call_back ts (h.array 0) in
            let (popped, size, at) = weigh-pop_timer (one p) us h (h.cur_size - 1) some_left in
            let expires : expire_of (pop_timer us h).0 p ≡ expire_of ts p =
              ap (λ m. (m p).expire) (at ∙ call_back-at ts (h.array 0)) in
            let other : p ≢ h.array 0 = λ e. absurd (expired (ap (expire_of ts) e) due) in
            let none = one-other p (h.array 0) other in
            let rest =
              tick_loop-Holds n cur p (pop_timer us h).0 (pop_timer us h).1
                (omega (arith, late, expires)) in
            let whole = ap (tally p h.array) some_left in
            record { same = rest.same ∙ omega (arith, popped, none, whole) }
  where
    expired :
        expire_of ts p ≡ expire_of ts (h.array 0) → ltb cur (expire_of ts (h.array 0)) ≡ false → ⊥
    expired e due = ground (arith, e, due, late)

-- tick takes nothing off the heap that expires after the time at which it runs.
pub tally-tick :
    (cur p : ℕ) (ts : Timers) (h : TimeHeap)
    → cur < expire_of ts p
    → let g = (tick cur ts h).1 in tally p g.array g.cur_size ≡ tally p h.array h.cur_size
unfolding tick
tally-tick cur p ts h late = (tick_loop-Holds (suc h.cur_size) cur p ts h late).same
