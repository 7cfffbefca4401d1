-- ===== src/TimeHeap/Pending.antt =====
-- The operations of time_heap on a heap whose pointers are known and in order.
use tiny_web_server_learning.Prelude.{
  ℕ, zero, suc, ◌+◌, ◌*◌, ◌≤◌, ◌<◌, ◌≡◌, ◌≢◌, refl, Bool, true, false, arith, leb, ltb,
  if◌then◌else◌, inl, inr, ltb→lt,
}
use tiny_web_server_learning.TimeHeap.{
  Timers, TimeHeap, set_at, expire_of, parent_of, percolate_up, smaller_child, percolate_down,
  resize, put_timer, add_timer,
}
use tiny_web_server_learning.TimeHeap.Order.{
  parent_lt, set_at-eq, set_at-ne, same_or_not, Ordered, percolate_up-Ordered,
}
use tiny_web_server_learning.TimeHeap.Weigh.{copy_of-at}
use tiny_web_server_learning.TimeHeap.Kept.{one, tally, tally-add_timer}
use tiny_web_server_learning.TimeHeap.Down.{smaller_child-Least}

-- The first `n` entries were made by `new`.
abbrev pub Known : ℕ → (ℕ → ℕ) → ℕ → Type 0
Known next a n = (i : ℕ) → i < n → a i < next

-- All but the one at the hole.
abbrev pub KnownBut : ℕ → (ℕ → ℕ) → ℕ → ℕ → Type 0
KnownBut next a n hole = (i : ℕ) → i < n → i ≢ hole → a i < next

set_at-Known :
    (next : ℕ) (a : ℕ → ℕ) (n h v : ℕ)
    → KnownBut next a n h
    → v < next
    → Known next (set_at a h v) n
set_at-Known next a n h v known new i l = elim (same_or_not h i) [
  | inl here ↦ rw (set_at-eq a h v i here) new
  | inr away ↦ rw (set_at-ne a h v i away) (known i l (omega arith))
]

-- The hole moves to `c`.
move-KnownBut :
    (next : ℕ) (a : ℕ → ℕ) (n h c : ℕ)
    → KnownBut next a n h
    → c < n
    → c ≢ h
    → KnownBut next (set_at a h (a c)) n c
move-KnownBut next a n h c known inside apart i l ne = elim (same_or_not h i) [
  | inl here ↦ rw (set_at-eq a h (a c) i here) (known c inside apart)
  | inr away ↦ rw (set_at-ne a h (a c) i away) (known i l (omega arith))
]

Known-if :
    (next n : ℕ) (b : Bool) (x y : ℕ → ℕ)
    → (b ≡ true → Known next x n)
    → (b ≡ false → Known next y n)
    → Known next (if b then x else y) n
Known-if next n true x y h k = h refl
Known-if next n false x y h k = k refl

module _ (next : ℕ) (key : ℕ → ℕ) where
  percolate_up-Known :
      (k : ℕ) (a : ℕ → ℕ) (n hole timer : ℕ)
      → hole < n
      → KnownBut next a n hole
      → timer < next
      → Known next (percolate_up k key a hole timer) n
  unfolding percolate_up
  percolate_up-Known zero a n hole timer inside known new =
      set_at-Known next a n hole timer known new
  percolate_up-Known (suc k) a n hole timer inside known new =
      let placed = set_at-Known next a n hole timer known new in
      let p = parent_of hole in
      Known-if next n (ltb 0 hole) _ _
        (λ inner.
          let less : p < hole = parent_lt hole (ltb→lt 0 hole inner) in
          Known-if next n (leb (key (a p)) (key timer)) _ _ (λ _. placed)
            λ _.
              percolate_up-Known k (set_at a hole (a p)) n p timer (omega (arith, less, inside))
                (move-KnownBut next a n hole p known (omega (arith, less, inside))
                  (omega (arith, less)))
                new)
        λ _. placed

  pub percolate_down-Known :
      (k : ℕ) (a : ℕ → ℕ) (n hole timer : ℕ)
      → KnownBut next a n hole
      → timer < next
      → Known next (percolate_down k key a n hole timer) n
  unfolding percolate_down
  percolate_down-Known zero a n hole timer known new = set_at-Known next a n hole timer known new
  percolate_down-Known (suc k) a n hole timer known new =
      let placed = set_at-Known next a n hole timer known new in
      let c = smaller_child key a n hole in
      Known-if next n (ltb (hole * 2 + 1) n) _ _
        (λ inner.
          let s = smaller_child-Least key a n hole (ltb→lt _ _ inner) in
          Known-if next n (ltb (key (a c)) (key timer)) _ _
            (λ _.
              percolate_down-Known k (set_at a hole (a c)) n c timer
                (move-KnownBut next a n hole c known s.inside (omega (arith, s.past))) new)
            λ _. placed)
        λ _. placed

-- The heap is in order by the times of its timers, `new` made them all, and the array has room for
-- them: no operation has touched an entry past its end.
pub record Sound (ts : Timers) (h : TimeHeap) : Type 0 where
  pub order : Ordered (expire_of ts) h.array h.cur_size
  pub known : Known ts.next h.array h.cur_size
  pub room : h.cur_size ≤ h.capacity
  pub nonempty : 0 < h.capacity
  pub inside : h.overrun ≡ false

-- New timers and changes other than of the time do not matter.
pub Sound-extend :
    (ts us : Timers) (h : TimeHeap)
    → Sound ts h
    → ts.next ≤ us.next
    → ((q : ℕ) → q < ts.next → expire_of us q ≡ expire_of ts q)
    → Sound us h
Sound-extend ts us h s more same = record {
  order = λ i p l.
      let above : parent_of i < h.cur_size = omega (arith, parent_lt i p, l) in
      let e1 = same (h.array (parent_of i)) (s.known (parent_of i) above) in
      let e2 = same (h.array i) (s.known i l) in
      let order = s.order i p l in omega (arith, e1, e2, order);
  known = λ i l. let k = s.known i l in omega (arith, k, more);
  room = s.room;
  nonempty = s.nonempty;
  inside = s.inside;
}

-- A timer in an array that has room for it.
put_timer-Sound :
    (ts : Timers) (h : TimeHeap) (timer : ℕ)
    → Sound ts h
    → h.cur_size < h.capacity
    → timer < ts.next
    → Sound ts (put_timer ts timer h)
unfolding put_timer
put_timer-Sound ts h timer s room new = record {
  order =
      percolate_up-Ordered (expire_of ts) (suc h.cur_size) h.array (suc h.cur_size) h.cur_size timer
        (omega arith)
        (record {
          inside = omega arith;
          others = λ i p l ne np. s.order i p (omega arith);
          below = λ i p l e. absurd (omega (arith, parent_lt i p, e));
          across = λ i p l q e. absurd (omega (arith, parent_lt i p, e));
        });
  known =
      percolate_up-Known ts.next (expire_of ts) (suc h.cur_size) h.array (suc h.cur_size) h.cur_size
        timer (omega arith) (λ i l ne. s.known i (omega arith)) new;
  room = omega (arith, room);
  nonempty = s.nonempty;
  inside = ground (arith, s.inside, room);
}

-- The array that resize has made has room.
resize-Sound :
    (ts : Timers) (h : TimeHeap)
    → Sound ts h
    → Sound ts (resize h) × ((resize h).cur_size < (resize h).capacity)
unfolding resize
resize-Sound ts h s = (
  record {
    order = λ i p l.
        let above : parent_of i < h.cur_size = omega (arith, parent_lt i p, l) in
        rw (copy_of-at h.array h.cur_size i l, copy_of-at h.array h.cur_size (parent_of i) above)
          (s.order i p l);
    known = λ i l. rw (copy_of-at h.array h.cur_size i l) (s.known i l);
    room = omega (arith, s.room);
    nonempty = omega (arith, s.nonempty);
    inside = ground (arith, s.inside, s.room);
  },
  omega (arith, s.room, s.nonempty),
)

put_timer-grows :
    (ts : Timers) (timer : ℕ) (h : TimeHeap) (full : Bool)
    → (put_timer ts timer (if full then resize h else h)).cur_size ≡ suc h.cur_size
unfolding put_timer resize
put_timer-grows ts timer h true = refl
put_timer-grows ts timer h false = refl

-- add_timer puts a timer that `new` made into the heap: it has one entry for it more, and those that
-- it had, it stays in order, and no entry past the end of the array is touched, since the array is
-- first made twice as large if it is full.
pub add_timer-Sound :
    (ts : Timers) (h : TimeHeap) (timer : ℕ)
    → Sound ts h
    → timer < ts.next
    → let g = add_timer ts timer h in
      Sound ts g
      × (g.cur_size ≡ suc h.cur_size)
      × ((p : ℕ) → tally p g.array g.cur_size ≡ tally p h.array h.cur_size + one p timer)
unfolding add_timer
add_timer-Sound ts h timer s new = (
  in_room (leb h.capacity h.cur_size) refl,
  grown (leb h.capacity h.cur_size),
  λ p. tally-add_timer ts h timer p,
)
  where
    in_room :
        (full : Bool)
        → leb h.capacity h.cur_size ≡ full
        → Sound ts (put_timer ts timer (if full then resize h else h))
    in_room true e =
        let (larger, room) = resize-Sound ts h s in
        put_timer-Sound ts (resize h) timer larger room new
    in_room false e = put_timer-Sound ts h timer s (ground (arith, e)) new

    grown :
        (full : Bool)
        → (put_timer ts timer (if full then resize h else h)).cur_size ≡ suc h.cur_size
    grown full = put_timer-grows ts timer h full
