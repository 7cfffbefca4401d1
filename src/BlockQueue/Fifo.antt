-- ===== src/BlockQueue/Fifo.antt =====
-- The queue is first in, first out, and never over its capacity.
use tiny_web_server_learning.Prelude.{
  ℕ, zero, suc, ◌≤◌, ◌≡◌, refl, ◌∙◌, sym, ap, Bool, true, false, List, [], ◌∷◌, ◌++◌, arith, some,
  leb, if◌then◌else◌, length, length-append, Bool-cases, inl, inr,
}
use mathlib.Core.List.{append_assoc, append-nil}
use tiny_web_server_learning.BlockQueue.{
  BlockQueue, make_queue, clear, push, pop, pop_for, pop_woken, Popped, item, waits, refused,
  CvStatus, timeout, no_timeout, close, take_front, is_empty,
}

module _ (T : Type 0) where
  -- The queue, with the items that push accepted and those that a pop delivered or that clear or
  -- close threw away, each in their order.
  pub record Queue : Type 0 where
    pub queue : BlockQueue T
    pub accepted : List T
    pub settled : List T

  abbrev pushed : Queue → T → Bool × BlockQueue T → Queue
  pushed s x (true, q) = record s { queue = q; accepted = s.accepted ++ x ∷ [] }
  pushed s x (false, q) = record s { queue = q }

  abbrev popped : Queue → Popped T → Queue
  popped s waits = s
  popped s refused = s
  popped s (item x q) = record s { queue = q; settled = s.settled ++ x ∷ [] }

  pub data Step (s : Queue) : Queue → Type 0 where
    pushes : (x : T) → Step s (pushed s x (push x s.queue))
    pops : Step s (popped s (pop s.queue))
    pops_for : Step s (popped s (pop_for s.queue))
    wakes : (why : CvStatus) → Step s (popped s (pop_woken why s.queue))
    clears : Step s (record s { queue = clear s.queue; settled = s.settled ++ s.queue.queue })
    closes : Step s (record s { queue = close s.queue; settled = s.settled ++ s.queue.queue })

  pub data Steps (s : Queue) : Queue → Type 0 where
    start : Steps s s
    step : {t u : Queue} → Steps s t → Step t u → Steps s u

  abbrev pub fresh : BlockQueue T → Queue
  fresh q = record { queue = q; accepted = []; settled = [] }

  pub record Fifo (n : ℕ) (s : Queue) : Type 0 where
    pub in_order : s.accepted ≡ s.settled ++ s.queue.queue
    pub bounded : length s.queue.queue ≤ n
    pub capacity : s.queue.max_size ≡ n

  take_front-Fifo :
      (n : ℕ) (s : Queue) (l : List T)
      → s.queue.queue ≡ l
      → Fifo n s
      → Fifo n (popped s (take_front s.queue l))
  unfolding take_front
  take_front-Fifo n s [] is h = h
  take_front-Fifo n s (x ∷ l) is h = record {
    in_order = h.in_order ∙ ap (λ k. s.settled ++ k) is ∙ sym (append_assoc s.settled (x ∷ []) l);
    bounded = omega (arith, h.bounded, ap length is);
    capacity = h.capacity;
  }

  popped-if :
      (n : ℕ) (s : Queue) (b : Bool) (x y : Popped T)
      → Fifo n (popped s x)
      → Fifo n (popped s y)
      → Fifo n (popped s (if b then x else y))
  popped-if n s true x y h k = h
  popped-if n s false x y h k = k

  Step-Fifo : (n : ℕ) (s t : Queue) → Fifo n s → Step s t → Fifo n t
  unfolding push pop pop_for pop_woken clear close
  Step-Fifo n s t h (pushes x) = elim (Bool-cases (leb s.queue.max_size (length s.queue.queue))) [
    | inl over ↦ rw over h
    | inr room ↦ rw room (record {
      in_order = ap (λ k. k ++ x ∷ []) h.in_order ∙ append_assoc s.settled s.queue.queue (x ∷ []);
      bounded = ground (arith, h.capacity, room, length-append s.queue.queue (x ∷ []));
      capacity = h.capacity;
    })
  ]
  Step-Fifo n s t h pops =
      popped-if n s (is_empty s.queue.queue) _ _ (popped-if n s s.queue.is_close _ _ h h)
        (take_front-Fifo n s s.queue.queue refl h)
  Step-Fifo n s t h pops_for =
      popped-if n s (is_empty s.queue.queue) _ _ (popped-if n s s.queue.is_close _ _ h h)
        (popped-if n s s.queue.is_close _ _ h (take_front-Fifo n s s.queue.queue refl h))
  Step-Fifo n s t h (wakes timeout) = h
  Step-Fifo n s t h (wakes no_timeout) =
      popped-if n s s.queue.is_close _ _ h (take_front-Fifo n s s.queue.queue refl h)
  Step-Fifo n s t h clears = record {
    in_order = h.in_order ∙ sym (append-nil (s.settled ++ s.queue.queue));
    bounded = omega arith;
    capacity = h.capacity;
  }
  Step-Fifo n s t h closes = record {
    in_order = h.in_order ∙ sym (append-nil (s.settled ++ s.queue.queue));
    bounded = omega arith;
    capacity = h.capacity;
  }

  Steps-Fifo : (n : ℕ) (s t : Queue) → Fifo n s → Steps s t → Fifo n t
  Steps-Fifo n s t h start = h
  Steps-Fifo n s t h (step {t = m} before next) = Step-Fifo n m t (Steps-Fifo n s m h before) next

make_queue-fresh :
    (T : Type 0) (n : ℕ) (q : BlockQueue T) → make_queue n ≡ some q → Fifo T n (fresh T q)
unfolding make_queue
make_queue-fresh T zero q h = cc h
make_queue-fresh T (suc n) q h =
    let made : record { queue = []; max_size = suc n; is_close = false } ≡ q = cc in
    record {
      in_order = ap (λ r. r.queue) made;
      bounded = omega (arith, sym (ap (λ r. length r.queue) made));
      capacity = sym (ap (λ r. r.max_size) made);
    }

-- A queue that was made with a capacity, in any order of the steps of its users: the items that
-- push has accepted are, in their order, those that were popped or thrown away and then those
-- that are in the queue; and the queue never has more items than the capacity.
pub make_queue-Fifo :
    (T : Type 0) (n : ℕ) (q : BlockQueue T) (s : Queue T)
    → make_queue n ≡ some q
    → Steps T (fresh T q) s
    → Fifo T n s
make_queue-Fifo T n q s made run = Steps-Fifo T n (fresh T q) s (make_queue-fresh T n q made) run
