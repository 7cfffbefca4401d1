-- ===== src/TimeHeap.antt =====
-- The timers of src/lst_timer.h: the class time_heap, a binary heap of pointers to timers, ordered
-- by their time of expiry. A pointer is a number, and the timers stand in a store.
pub mod Order
pub mod Down
pub mod Pending
pub mod Tick
pub mod Weigh
pub mod Kept
pub mod Same
pub mod Due
pub mod Owned
mod Tests
use tiny_web_server_learning.Prelude.{
  ℕ, zero, suc, ◌+◌, ◌-◌, ◌*◌, ◌/◌, Bool, true, false, ◌&&◌, ◌||◌, List, [], ◌∷◌, Option, none,
  some, leb, ltb, ◌==◌, if◌then◌else◌,
}

-- util_timer; is cb_func set?
pub record Timer : Type 0 where
  pub expire : ℕ
  pub cb_func : Bool
  pub user_data : ℕ

-- The array of `capacity` pointers, the number of those in it, and whether an operation has touched an
-- entry past its end.
pub record TimeHeap : Type 0 where
  pub array : ℕ → ℕ
  pub capacity : ℕ
  pub cur_size : ℕ
  pub overrun : Bool

-- The timers by their pointers, the next pointer that `new` gives, the pointers that were deleted,
-- the members `timer` of the users, and the users whose callback was called, newest first.
pub record Timers : Type 0 where
  pub at : ℕ → Timer
  pub next : ℕ
  pub deleted : List ℕ
  pub timer_of : ℕ → ℕ
  pub called : List ℕ

-- The constructor: the array is full of null pointers, which no loop reads.
unfoldable pub make_heap : ℕ → TimeHeap
make_heap capacity = record { array = λ i. 0; capacity = capacity; cur_size = 0; overrun = false }

unfoldable pub top : TimeHeap → Option ℕ
top h = if h.cur_size == 0 then none else some (h.array 0)

unfoldable pub is_empty_heap : TimeHeap → Bool
is_empty_heap h = h.cur_size == 0

-- The destructor: `n` entries are deleted.
unfoldable pub delete_all : ℕ → TimeHeap → Timers → Timers
delete_all zero h ts = ts
delete_all (suc n) h ts =
    let rest = delete_all n h ts in record rest { deleted = h.array n ∷ rest.deleted }

-- array[i] = p
abbrev pub set_at : (ℕ → ℕ) → ℕ → ℕ → ℕ → ℕ
set_at a i p j = if i == j then p else a j

unfoldable pub parent_of : ℕ → ℕ
parent_of hole = (hole - 1) / 2

-- The loop of add_timer, on fuel: move the hole up until `timer` fits.
unfoldable pub percolate_up : ℕ → (ℕ → ℕ) → (ℕ → ℕ) → ℕ → ℕ → ℕ → ℕ
percolate_up zero key a hole timer = set_at a hole timer
percolate_up (suc n) key a hole timer =
    let p = parent_of hole in
    let rest = percolate_up n key (set_at a hole (a p)) p timer in
    if ltb 0 hole
    then (if leb (key (a p)) (key timer) then set_at a hole timer else rest)
    else set_at a hole timer

-- the smaller child
unfoldable pub smaller_child : (ℕ → ℕ) → (ℕ → ℕ) → ℕ → ℕ → ℕ
smaller_child key a size hole =
    let child = hole * 2 + 1 in
    if ltb child (size - 1) && ltb (key (a (child + 1))) (key (a child)) then child + 1 else child

-- The loop of pop_timer, on fuel: move the hole down until `temp` fits.
unfoldable pub percolate_down : ℕ → (ℕ → ℕ) → (ℕ → ℕ) → ℕ → ℕ → ℕ → ℕ → ℕ
percolate_down zero key a size hole temp = set_at a hole temp
percolate_down (suc n) key a size hole temp =
    let child = smaller_child key a size hole in
    let rest = percolate_down n key (set_at a hole (a child)) size child temp in
    if ltb (hole * 2 + 1) size
    then (if ltb (key (a child)) (key temp) then rest else set_at a hole temp)
    else set_at a hole temp

abbrev pub expire_of : Timers → ℕ → ℕ
expire_of ts p = (ts.at p).expire

-- The first `n` entries of an array, and null pointers behind them.
abbrev pub copy_of : (ℕ → ℕ) → ℕ → ℕ → ℕ
copy_of a n i = if ltb i n then a i else 0

-- A new array of twice the capacity, into which the entries are copied.
unfoldable pub resize : TimeHeap → TimeHeap
resize h = record h {
  array = copy_of h.array h.cur_size;
  capacity = 2 * h.capacity;
  overrun = h.overrun || ltb (2 * h.capacity) h.cur_size;
}

-- A timer goes behind the last entry of the array, and up from there.
unfoldable pub put_timer : Timers → ℕ → TimeHeap → TimeHeap
put_timer ts timer h = record h {
  cur_size = suc h.cur_size;
  array = percolate_up (suc h.cur_size) (expire_of ts) h.array h.cur_size timer;
  overrun = h.overrun || leb h.capacity h.cur_size;
}

unfoldable pub add_timer : Timers → ℕ → TimeHeap → TimeHeap
unfolding resize put_timer
add_timer ts timer h = put_timer ts timer (if leb h.capacity h.cur_size then resize h else h)

abbrev pub set_timer : (ℕ → Timer) → ℕ → Timer → ℕ → Timer
set_timer m p t q = if p == q then t else m q

unfoldable pub del_timer : ℕ → Timers → Timers
del_timer timer ts = record ts {
  at = set_timer ts.at timer (record (ts.at timer) { cb_func = false });
}

-- `now` is what time returns.
unfoldable pub adjust_timer : ℕ → ℕ → Timers → TimeHeap → Timers × TimeHeap
unfolding del_timer add_timer
adjust_timer now timer ts h =
    let old = ts.at timer in
    let dead = del_timer timer ts in
    let new_timer = dead.next in
    let us = record dead {
      at = set_timer dead.at new_timer (record old { expire = now + 15 });
      next = suc new_timer;
      timer_of = set_at dead.timer_of old.user_data new_timer;
    } in
    (us, add_timer us new_timer h)

unfoldable pub pop_timer : Timers → TimeHeap → Timers × TimeHeap
pop_timer ts h =
    if h.cur_size == 0
    then (ts, h)
    else let size = h.cur_size - 1 in
      let moved = set_at h.array 0 (h.array size) in
      (
        record ts { deleted = h.array 0 ∷ ts.deleted },
        record h {
          cur_size = size;
          array = percolate_down (suc size) (expire_of ts) moved size 0 (moved 0);
          overrun = h.overrun || ltb h.capacity h.cur_size;
        },
      )

unfoldable pub call_back : Timers → ℕ → Timers
call_back ts p =
    if (ts.at p).cb_func then record ts { called = (ts.at p).user_data ∷ ts.called } else ts

-- The loop of tick, on fuel; `cur` is what time returns.
unfoldable pub tick_loop : ℕ → ℕ → Timers → TimeHeap → Timers × TimeHeap
unfolding call_back pop_timer
tick_loop zero cur ts h = (ts, h)
tick_loop (suc n) cur ts h =
    let (us, g) = pop_timer (call_back ts (h.array 0)) h in
    let rest = tick_loop n cur us g in
    if h.cur_size == 0
    then (ts, h)
    else if ltb cur (expire_of ts (h.array 0))
    then (ts, h)
    else rest

unfoldable pub tick : ℕ → Timers → TimeHeap → Timers × TimeHeap
unfolding tick_loop
tick cur ts h = tick_loop (suc h.cur_size) cur ts h
