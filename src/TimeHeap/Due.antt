-- ===== src/TimeHeap/Due.antt =====
-- What tick does to the timers, seen as a collection: it takes those that are due, and calls back
-- the users of those among them whose callback is set.
use tiny_web_server_learning.Prelude.{
  ℕ, zero, suc, ◌+◌, ◌-◌, ◌<◌, ◌≡◌, refl, ◌∙◌, ap, Bool, true, false, arith, leb, ltb, ◌==◌,
  if◌then◌else◌, ltb→lt,
}
use tiny_web_server_learning.TimeHeap.{
  Timers, TimeHeap, expire_of, pop_timer, call_back, tick_loop, tick,
}
use tiny_web_server_learning.TimeHeap.Pending.{Sound}
use tiny_web_server_learning.TimeHeap.Tick.{root-first, pop_timer-Sound, call_back-Sound}
use tiny_web_server_learning.TimeHeap.Weigh.{weigh, weigh-pop_timer}
use tiny_web_server_learning.TimeHeap.Kept.{call_back-at}
use tiny_web_server_learning.TimeHeap.Same.{
  weigh-late, weigh-no_calls, times, left_by, calls_of, due_calls, call_back-called, SameTimers,
  call_back-SameTimers, pop_timer-SameTimers, pop_timer-called, past,
}

-- What `x` has of the timers of `ts` and `h`, when those that are due at `cur` are done with.
record Ticked (cur : ℕ) (w : ℕ → ℕ) (u : ℕ) (ts : Timers) (h : TimeHeap) (x : Timers × TimeHeap)
    : Type 0 where
  same : SameTimers ts x.0
  weight : weigh w x.1.array x.1.cur_size ≡ weigh (left_by cur ts.at w) h.array h.cur_size
  calls : times u x.0.called ≡ times u ts.called + weigh (due_calls cur ts.at u) h.array h.cur_size

module _ (cur : ℕ) (w : ℕ → ℕ) (u : ℕ) where
  Ticked-if :
      {ts : Timers} {h : TimeHeap} {x y : Timers × TimeHeap} (b : Bool)
      → (b ≡ true → Ticked cur w u ts h x)
      → (b ≡ false → Ticked cur w u ts h y)
      → Ticked cur w u ts h (if b then x else y)
  Ticked-if true h k = h refl
  Ticked-if false h k = k refl

  -- Nothing is due.
  Ticked-late :
      (ts : Timers) (h : TimeHeap)
      → ((i : ℕ) → i < h.cur_size → cur < expire_of ts (h.array i))
      → Ticked cur w u ts h (ts, h)
  Ticked-late ts h late = record {
    same = record { at = refl; next = refl; timer_of = refl };
    weight = weigh-late cur ts.at w h.array h.cur_size late;
    calls = omega (arith, weigh-no_calls cur ts.at u h.array h.cur_size late);
  }

  -- The first timer is due, and is gone.
  Ticked-due :
      (n : ℕ) (ts : Timers) (h : TimeHeap) (x : Timers × TimeHeap)
      → h.cur_size ≡ suc n
      → leb (expire_of ts (h.array 0)) cur ≡ true
      → (let (us, g) = pop_timer (call_back ts (h.array 0)) h in Ticked cur w u us g x)
      → Ticked cur w u ts h x
  Ticked-due n ts h x size due t =
      let us = call_back ts (h.array 0) in
      let (left, less, at1) = weigh-pop_timer (left_by cur ts.at w) us h n size in
      let (calls, less', at2) = weigh-pop_timer (due_calls cur ts.at u) us h n size in
      let at : (pop_timer us h).0.at ≡ ts.at = at1 ∙ call_back-at ts (h.array 0) in
      let g = (pop_timer us h).1 in
      let popped = pop_timer-SameTimers us h in
      let called_back = call_back-SameTimers ts (h.array 0) in
      let p = h.array 0 in
      let none_left : left_by cur ts.at w p ≡ 0 = ap (λ b. if b then 0 else w p) due in
      let called : due_calls cur ts.at u p ≡ calls_of u (ts.at p) =
        ap (λ b. if b then calls_of u (ts.at p) else 0) due in
      record {
        same = record {
          at = t.same.at ∙ at;
          next = t.same.next ∙ popped.next ∙ called_back.next;
          timer_of = t.same.timer_of ∙ popped.timer_of ∙ called_back.timer_of;
        };
        weight = omega (
          arith,
          t.weight,
          ap (λ m. weigh (left_by cur m w) g.array g.cur_size) at,
          left,
          none_left,
          ap (weigh (left_by cur ts.at w) h.array) size,
        );
        calls = omega (
          arith,
          t.calls,
          ap (λ m. weigh (due_calls cur m u) g.array g.cur_size) at,
          ap (times u) (pop_timer-called us h),
          call_back-called ts p u,
          calls,
          called,
          ap (weigh (due_calls cur ts.at u) h.array) size,
        );
      }

  tick_loop-Ticked :
      (n : ℕ) (ts : Timers) (h : TimeHeap)
      → h.cur_size < n
      → Sound ts h
      → Ticked cur w u ts h (tick_loop n cur ts h)
  unfolding tick_loop
  tick_loop-Ticked zero ts h few s = absurd (omega arith)
  tick_loop-Ticked (suc n) ts h few s =
      Ticked-if (h.cur_size == 0)
        (λ empty. Ticked-late ts h λ i l. absurd (ground (arith, empty, l)))
        λ full.
          Ticked-if (ltb cur (expire_of ts (h.array 0)))
            (λ later. Ticked-late ts h λ i l.
              let first =
                root-first (expire_of ts) h.array h.cur_size (suc i) i (omega arith) s.order l in
              let far = ltb→lt cur (expire_of ts (h.array 0)) later in omega (arith, first, far))
            λ due.
              let some_left : h.cur_size ≡ suc (h.cur_size - 1) = ground (arith, full) in
              let us = call_back ts (h.array 0) in
              let (t, size) =
                pop_timer-Sound us h (h.cur_size - 1) some_left
                  (call_back-Sound ts h (h.array 0) s) in
              let (vs, g) = pop_timer us h in
              Ticked-due (h.cur_size - 1) ts h (tick_loop n cur vs g) some_left
                (past cur (expire_of ts (h.array 0)) due)
                (tick_loop-Ticked n vs g (omega (arith, size, some_left, few)) t)

-- As a collection, the heap after tick is the heap before it without the timers that have expired
-- by the time at which it runs: whatever the timers weigh, those that are left weigh what those
-- that expire later weighed. The timers themselves are as before.
pub tick-weigh :
    (cur : ℕ) (w : ℕ → ℕ) (ts : Timers) (h : TimeHeap)
    → Sound ts h
    → let (us, g) = tick cur ts h in
      (us.at ≡ ts.at)
      × (weigh w g.array g.cur_size
          ≡ weigh (λ p. if leb (expire_of ts p) cur then 0 else w p) h.array h.cur_size)
unfolding tick
tick-weigh cur w ts h s =
    let t = tick_loop-Ticked cur w 0 (suc h.cur_size) ts h (omega arith) s in (t.same.at, t.weight)

-- tick calls each user back as often as there are timers for that user in the heap that have
-- expired and whose callback is set: no call is missed, and no other is made.
pub tick-calls :
    (cur u : ℕ) (ts : Timers) (h : TimeHeap)
    → Sound ts h
    → times u (tick cur ts h).0.called
      ≡ times u ts.called + weigh (due_calls cur ts.at u) h.array h.cur_size
unfolding tick
tick-calls cur u ts h s =
    (tick_loop-Ticked cur (λ p. 0) u (suc h.cur_size) ts h (omega arith) s).calls

pub tick-SameTimers :
    (cur : ℕ) (ts : Timers) (h : TimeHeap) → Sound ts h → SameTimers ts (tick cur ts h).0
unfolding tick
tick-SameTimers cur ts h s =
    (tick_loop-Ticked cur (λ p. 0) 0 (suc h.cur_size) ts h (omega arith) s).same
