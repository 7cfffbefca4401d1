-- ===== src/TimeHeap/Tick.antt =====
-- tick takes the timers that have expired off the heap, and adjust_timer puts one off.
use tiny_web_server_learning.Prelude.{
  ℕ, zero, suc, ◌+◌, ◌-◌, ◌≤◌, ◌<◌, ◌≡◌, ◌≢◌, refl, ◌∙◌, ap, Bool, true, false, arith, ltb, ◌==◌,
  if◌then◌else◌, Bool-cases, inl, inr, ltb→lt,
}
use tiny_web_server_learning.TimeHeap.{
  Timer, Timers, TimeHeap, set_at, set_timer, expire_of, parent_of, percolate_down, del_timer,
  adjust_timer, pop_timer, call_back, tick_loop, tick,
}
use tiny_web_server_learning.TimeHeap.Order.{parent_lt, set_at-eq, set_at-ne, same_or_not, Ordered}
use tiny_web_server_learning.TimeHeap.Kept.{one, tally}
use tiny_web_server_learning.TimeHeap.Down.{percolate_down-Ordered}
use tiny_web_server_learning.TimeHeap.Pending.{
  Known, percolate_down-Known, Sound, Sound-extend, add_timer-Sound,
}

-- The heap without its first entry, whose place the last one takes.
module _ (ts : Timers) (a : ℕ → ℕ) where
  abbrev moved : ℕ → ℕ → ℕ
  moved n = set_at a 0 (a n)

  moved-at : (n i : ℕ) → 0 < i → moved n i ≡ a i
  moved-at n i p = set_at-ne a 0 (a n) i (omega arith)

  sink-Ordered :
      (n : ℕ)
      → Ordered (expire_of ts) a (suc n)
      → Ordered (expire_of ts) (percolate_down (suc n) (expire_of ts) (moved n) n 0 (moved n 0)) n
  sink-Ordered zero order = λ i p l. absurd (omega arith)
  sink-Ordered (suc n) order =
      percolate_down-Ordered (expire_of ts) (suc (suc n)) (moved (suc n)) (suc n) 0
        (moved (suc n) 0) (omega arith) (omega arith)
        (record {
          others = λ i p l ne np.
              rw (moved-at (suc n) i p, moved-at (suc n) (parent_of i) (omega arith))
                (order i p (omega arith));
          above = λ p. absurd (omega arith);
          across = λ i p l q e. absurd (omega arith);
        })

  sink-Known :
      (n : ℕ)
      → Known ts.next a (suc n)
      → Known ts.next (percolate_down (suc n) (expire_of ts) (moved n) n 0 (moved n 0)) n
  sink-Known n known =
      percolate_down-Known ts.next (expire_of ts) (suc n) (moved n) n 0 (moved n 0)
        (λ i l ne. rw (moved-at n i (omega arith)) (known i (omega arith))) (known n (omega arith))

pub pop_timer-Sound :
    (ts : Timers) (h : TimeHeap) (n : ℕ)
    → h.cur_size ≡ suc n
    → Sound ts h
    → Sound (pop_timer ts h).0 (pop_timer ts h).1 × ((pop_timer ts h).1.cur_size ≡ n)
unfolding pop_timer
pop_timer-Sound ts h n e s =
    let some_left : (h.cur_size == 0) ≡ false = ground (arith, e) in
    let size : h.cur_size - 1 ≡ n = omega (arith, e) in
    rw (some_left, size)
      (
        record {
          order = sink-Ordered ts h.array n λ i p l. s.order i p (omega (arith, e));
          known = sink-Known ts h.array n λ i l. s.known i (omega (arith, e));
          room = omega (arith, s.room, e);
          nonempty = s.nonempty;
          inside = ground (arith, s.inside, s.room);
        },
        refl,
      )

-- The first entry expires first.
pub root-first :
    (key a : ℕ → ℕ) (n k i : ℕ) → i < k → Ordered key a n → i < n → key (a 0) ≤ key (a i)
root-first key a n zero i few order l = absurd (omega arith)
root-first key a n (suc k) zero few order l = omega arith
root-first key a n (suc k) (suc i) few order l =
    let less = parent_lt (suc i) (omega arith) in
    let up =
      root-first key a n k (parent_of (suc i)) (omega (arith, less)) order (omega (arith, less)) in
    let last = order (suc i) (omega arith) l in omega (arith, up, last)

pub call_back-Sound : (ts : Timers) (h : TimeHeap) (p : ℕ) → Sound ts h → Sound (call_back ts p) h
unfolding call_back
call_back-Sound ts h p s = elim (Bool-cases (ts.at p).cb_func) [
  | inl live ↦ rw live (record {
    order = s.order;
    known = s.known;
    room = s.room;
    nonempty = s.nonempty;
    inside = s.inside;
  })
  | inr dead ↦ rw dead s
]

-- The heap is in order, and no timer in it expires by `cur`.
pub record Later (cur : ℕ) (ts : Timers) (h : TimeHeap) : Type 0 where
  pub sound : Sound ts h
  pub later : (i : ℕ) → i < h.cur_size → cur < expire_of ts (h.array i)

Later-if :
    {x y : Timers × TimeHeap} (cur : ℕ) (b : Bool)
    → (b ≡ true → Later cur x.0 x.1)
    → (b ≡ false → Later cur y.0 y.1)
    → Later cur (if b then x else y).0 (if b then x else y).1
Later-if cur true h k = h refl
Later-if cur false h k = k refl

tick_loop-Later :
    (n cur : ℕ) (ts : Timers) (h : TimeHeap)
    → h.cur_size < n
    → Sound ts h
    → Later cur (tick_loop n cur ts h).0 (tick_loop n cur ts h).1
unfolding tick_loop
tick_loop-Later zero cur ts h few s = absurd (omega arith)
tick_loop-Later (suc n) cur ts h few s =
    Later-if cur (h.cur_size == 0)
      (λ empty. record { sound = s; later = λ i l. absurd (ground (arith, empty, l)) })
      λ full.
        Later-if cur (ltb cur (expire_of ts (h.array 0)))
          (λ later. record {
            sound = s;
            later = λ i l.
                let first =
                  root-first (expire_of ts) h.array h.cur_size (suc i) i (omega arith) s.order l in
                let far = ltb→lt cur (expire_of ts (h.array 0)) later in omega (arith, first, far);
          })
          λ due.
            let some_left : h.cur_size ≡ suc (h.cur_size - 1) = ground (arith, full) in
            let us = call_back ts (h.array 0) in
            let (t, size) =
              pop_timer-Sound us h (h.cur_size - 1) some_left
                (call_back-Sound ts h (h.array 0) s) in
            tick_loop-Later n cur (pop_timer us h).0 (pop_timer us h).1
              (omega (arith, size, some_left, few)) t

-- tick ends, and what it leaves is a heap in order in which every timer expires after the time
-- at which it ran: all that had expired by then are gone.
pub tick-Later :
    (cur : ℕ) (ts : Timers) (h : TimeHeap)
    → Sound ts h
    → Later cur (tick cur ts h).0 (tick cur ts h).1
unfolding tick
tick-Later cur ts h s = tick_loop-Later (suc h.cur_size) cur ts h (omega arith) s

pub set_timer-ne : (m : ℕ → Timer) (p : ℕ) (t : Timer) (q : ℕ) → p ≢ q → set_timer m p t q ≡ m q
set_timer-ne m p t q ne = ground arith

pub set_timer-eq : (m : ℕ → Timer) (p : ℕ) (t : Timer) → set_timer m p t p ≡ t
set_timer-eq m p t = ground arith

-- The timers after adjust_timer.
module _ (now timer : ℕ) (ts : Timers) where
  abbrev put_off : Timer
  put_off = record {
    expire = now + 15;
    cb_func = (ts.at timer).cb_func;
    user_data = (ts.at timer).user_data;
  }

  abbrev adjusted : Timers
  adjusted = record ts {
    at =
        set_timer (set_timer ts.at timer (record (ts.at timer) { cb_func = false })) ts.next
          put_off;
    next = suc ts.next;
    timer_of = set_at ts.timer_of (ts.at timer).user_data ts.next;
  }

  same_expire : (q : ℕ) → q < ts.next → expire_of adjusted q ≡ expire_of ts q
  same_expire q old =
      let dead : Timer = record (ts.at timer) { cb_func = false } in
      ap (λ t. t.expire) (set_timer-ne (set_timer ts.at timer dead) ts.next put_off q (omega arith))
      ∙ (elim (same_or_not timer q) [
        | inl here ↦ rw⁻¹ here (ap (λ t. t.expire) (set_timer-eq ts.at timer dead))
        | inr away ↦ ap (λ t. t.expire) (set_timer-ne ts.at timer dead q away)
      ])

  adjusted-Sound : (h : TimeHeap) → Sound ts h → Sound adjusted h
  adjusted-Sound h s = Sound-extend ts adjusted h s (omega arith) same_expire

-- adjust_timer leaves the heap in order, with one timer more, that the user's member `timer` points to:
-- a new one for the same user, which has the callback that the old one had and expires 15 seconds
-- after `now`. All that were in the heap are still there, the old one too, which has no callback any
-- more.
pub adjust_timer-Sound :
    (now timer : ℕ) (ts : Timers) (h : TimeHeap)
    → Sound ts h
    → timer < ts.next
    → let (us, g) = adjust_timer now timer ts h in
      let user = (ts.at timer).user_data in
      Sound us g
      × (g.cur_size ≡ suc h.cur_size)
      × (us.at (us.timer_of user)
          ≡ record { expire = now + 15; cb_func = (ts.at timer).cb_func; user_data = user })
      × (us.timer_of user ≡ ts.next)
      × ((p : ℕ) → tally p g.array g.cur_size ≡ tally p h.array h.cur_size + one p ts.next)
      × ((us.at timer).cb_func ≡ false)
unfolding adjust_timer del_timer
adjust_timer-Sound now timer ts h s old =
    let us = adjusted now timer ts in
    let (sound, size, entries) =
      add_timer-Sound us h ts.next (adjusted-Sound now timer ts h s) (omega arith) in
    let dead : Timer = record (ts.at timer) { cb_func = false } in
    let killed = set_timer ts.at timer dead in
    let new = put_off now timer ts in
    (
      sound,
      size,
      rw (set_at-eq ts.timer_of (ts.at timer).user_data ts.next (ts.at timer).user_data refl)
          (set_timer-eq killed ts.next new),
      set_at-eq ts.timer_of (ts.at timer).user_data ts.next (ts.at timer).user_data refl,
      entries,
      ap (λ t. t.cb_func)
          (set_timer-ne killed ts.next new timer (omega arith) ∙ set_timer-eq ts.at timer dead),
    )
