-- ===== src/TimeHeap/Owned.antt =====
-- Who owns a timer: the heap has its pointer once, or it was deleted once, or neither.
use tiny_web_server_learning.Prelude.{
  ℕ, zero, suc, ◌+◌, ◌-◌, ◌≤◌, ◌<◌, ◌≡◌, refl, ◌∙◌, ap, Bool, true, false, ◌∷◌, arith, ltb, ◌==◌,
  if◌then◌else◌, Bool-cases, inl, inr,
}
use tiny_web_server_learning.TimeHeap.{
  Timers, TimeHeap, expire_of, add_timer, call_back, pop_timer, tick_loop, tick,
}
use tiny_web_server_learning.TimeHeap.Weigh.{weigh-pop_timer}
use tiny_web_server_learning.TimeHeap.Kept.{one, tally, tally-add_timer}
use tiny_web_server_learning.TimeHeap.Same.{times}

-- How often the heap has `p`, and how often it was deleted.
abbrev pub held : ℕ → Timers → TimeHeap → ℕ
held p ts h = tally p h.array h.cur_size + times p ts.deleted

-- No pointer is twice in the heap, none of those in it was deleted, none was deleted twice, and those
-- that `new` has not given are neither.
pub record Owned (ts : Timers) (h : TimeHeap) : Type 0 where
  pub once : (p : ℕ) → held p ts h ≤ 1
  pub made : (p : ℕ) → ts.next ≤ p → held p ts h ≡ 0

-- A pointer in the heap was not deleted.
pub Owned-alive :
    (ts : Timers) (h : TimeHeap) (p : ℕ)
    → Owned ts h
    → 0 < tally p h.array h.cur_size
    → times p ts.deleted ≡ 0
Owned-alive ts h p o inside = omega (arith, o.once p, inside)

-- What neither makes nor deletes a timer keeps it.
pub Owned-same :
    (ts us : Timers) (h : TimeHeap)
    → Owned ts h
    → us.next ≡ ts.next
    → us.deleted ≡ ts.deleted
    → Owned us h
Owned-same ts us h o next deleted = record {
  once = λ p. omega (arith, o.once p, ap (times p) deleted);
  made = λ p l. omega (arith, o.made p (omega (arith, next, l)), ap (times p) deleted);
}

-- A new timer in the heap.
pub Owned-new :
    (ts us : Timers) (h : TimeHeap)
    → Owned ts h
    → us.next ≡ suc ts.next
    → us.deleted ≡ ts.deleted
    → Owned us (add_timer us ts.next h)
Owned-new ts us h o next deleted = record {
  once = λ p.
      let t = tally-add_timer us h ts.next p in
      let d = ap (times p) deleted in new_or_not p (p == ts.next) refl t d;
  made = λ p l.
      let t = tally-add_timer us h ts.next p in
      let d = ap (times p) deleted in
      let old = o.made p (omega (arith, next, l)) in
      let other : one p ts.next ≡ 0 = ground (arith, next, l) in omega (arith, t, d, old, other);
}
  where
    new_or_not :
        (p : ℕ) (b : Bool)
        → (p == ts.next) ≡ b
        → tally p (add_timer us ts.next h).array (add_timer us ts.next h).cur_size
          ≡ tally p h.array h.cur_size + one p ts.next
        → times p us.deleted ≡ times p ts.deleted
        → held p us (add_timer us ts.next h) ≤ 1
    new_or_not p true e t d =
        let same : p ≡ ts.next = ground (arith, e) in
        let new : one p ts.next ≡ 1 = rw e refl in
        let old = o.made p (omega (arith, same)) in omega (arith, t, d, new, old)
    new_or_not p false e t d =
        let other : one p ts.next ≡ 0 = rw e refl in omega (arith, t, d, other, o.once p)

-- What tick leaves of the heap and of the deleted timers.
record Passed (p m n : ℕ) (x : Timers × TimeHeap) : Type 0 where
  held_as : held p x.0 x.1 ≡ m
  next : x.0.next ≡ n

Passed-if :
    {x y : Timers × TimeHeap} (p m n : ℕ) (b : Bool)
    → (b ≡ true → Passed p m n x)
    → (b ≡ false → Passed p m n y)
    → Passed p m n (if b then x else y)
Passed-if p m n true h k = h refl
Passed-if p m n false h k = k refl

call_back-deleted :
    (ts : Timers) (p : ℕ)
    → ((call_back ts p).deleted ≡ ts.deleted) × ((call_back ts p).next ≡ ts.next)
unfolding call_back
call_back-deleted ts p = elim (Bool-cases (ts.at p).cb_func) [
  | inl live ↦ rw live (refl, refl)
  | inr dead ↦ rw dead (refl, refl)
]

pop_timer-deleted :
    (ts : Timers) (h : TimeHeap)
    → (h.cur_size == 0) ≡ false
    → ((pop_timer ts h).0.deleted ≡ h.array 0 ∷ ts.deleted) × ((pop_timer ts h).0.next ≡ ts.next)
unfolding pop_timer
pop_timer-deleted ts h full = rw full (refl, refl)

tick_loop-Passed :
    (n cur p : ℕ) (ts : Timers) (h : TimeHeap)
    → Passed p (held p ts h) ts.next (tick_loop n cur ts h)
unfolding tick_loop
tick_loop-Passed zero cur p ts h = record { held_as = refl; next = refl }
tick_loop-Passed (suc n) cur p ts h =
    Passed-if p (held p ts h) ts.next (h.cur_size == 0)
      (λ _. record { held_as = refl; next = refl })
      λ full.
        Passed-if p (held p ts h) ts.next (ltb cur (expire_of ts (h.array 0)))
          (λ _. record { held_as = refl; next = refl })
          λ due.
            let some_left : h.cur_size ≡ suc (h.cur_size - 1) = ground (arith, full) in
            let us = call_back ts (h.array 0) in
            let (called, made) = call_back-deleted ts (h.array 0) in
            let (popped, size, at) = weigh-pop_timer (one p) us h (h.cur_size - 1) some_left in
            let (deleted, kept) = pop_timer-deleted us h full in
            let rest = tick_loop-Passed n cur p (pop_timer us h).0 (pop_timer us h).1 in
            let whole = ap (tally p h.array) some_left in
            record {
              held_as =
                  rest.held_as
                  ∙ omega (arith, popped, whole, ap (times p) deleted, ap (times p) called);
              next = rest.next ∙ kept ∙ made;
            }

-- tick deletes what it takes off the heap, once.
pub tick-Owned :
    (cur : ℕ) (ts : Timers) (h : TimeHeap) → Owned ts h → Owned (tick cur ts h).0 (tick cur ts h).1
unfolding tick
tick-Owned cur ts h o = record {
  once = λ p.
      let passed = tick_loop-Passed (suc h.cur_size) cur p ts h in
      omega (arith, o.once p, passed.held_as);
  made = λ p l.
      let passed = tick_loop-Passed (suc h.cur_size) cur p ts h in
      omega (arith, o.made p (omega (arith, passed.next, l)), passed.held_as);
}
