-- ===== src/BlockQueue.antt =====
-- The queue between the log and its writer, src/block_queue.h. Each operation holds the lock, so
-- it is one step; a pop that waits on the condition gives the lock back and tries again later.
pub mod Fifo
pub mod Front
mod Tests
use tiny_web_server_learning.Prelude.{
  ℕ, zero, suc, Bool, true, false, List, [], ◌∷◌, ◌++◌, Option, none, some, leb, if◌then◌else◌,
  length,
}

pub record BlockQueue {ℓ} (T : Type ℓ) : Type ℓ where
  pub queue : List T
  pub max_size : ℕ
  pub is_close : Bool

-- How a pop goes on: it waits, or it returns false, or it returns true with an item.
pub data Popped {ℓ} (T : Type ℓ) : Type ℓ where
  waits refused : Popped T
  item : T → BlockQueue T → Popped T

-- What ends the wait of a pop with a time limit.
pub data CvStatus : Type 0 where
  timeout no_timeout : CvStatus

module _ {ℓ} {T : Type ℓ} where
  -- The constructor; it ends the program where the capacity is not positive.
  unfoldable pub make_queue : ℕ → Option (BlockQueue T)
  make_queue zero = none
  make_queue (suc n) = some (record { queue = []; max_size = suc n; is_close = false })

  unfoldable pub clear : BlockQueue T → BlockQueue T
  clear q = record q { queue = [] }

  unfoldable pub full : BlockQueue T → Bool
  full q = leb q.max_size (length q.queue)

  abbrev pub is_empty : List T → Bool
  is_empty [] = true
  is_empty (x ∷ s) = false

  unfoldable pub empty : BlockQueue T → Bool
  empty q = is_empty q.queue

  abbrev pub first : List T → Option T
  first [] = none
  first (x ∷ s) = some x

  abbrev pub last : List T → Option T
  last [] = none
  last (x ∷ []) = some x
  last (x ∷ y ∷ s) = last (y ∷ s)

  unfoldable pub front : BlockQueue T → Option T
  front q = first q.queue

  unfoldable pub back : BlockQueue T → Option T
  back q = last q.queue

  unfoldable pub push : T → BlockQueue T → Bool × BlockQueue T
  push x q =
      if leb q.max_size (length q.queue)
      then (false, q)
      else (true, record q { queue = q.queue ++ x ∷ [] })

  take_front : BlockQueue T → List T → Popped T
  take_front q [] = refused
  take_front q (x ∷ s) = item x (record q { queue = s })

  -- pop, from where it holds the lock to where it returns or waits
  unfoldable pub pop : BlockQueue T → Popped T
  unfolding take_front
  pop q = if is_empty q.queue then (if q.is_close then refused else waits) else take_front q q.queue

  -- pop with a time limit: up to the wait
  unfoldable pub pop_for : BlockQueue T → Popped T
  unfolding take_front
  pop_for q =
      if is_empty q.queue
      then (if q.is_close then refused else waits)
      else if q.is_close
      then refused
      else take_front q q.queue

  -- and from there, on the queue as it is then
  unfoldable pub pop_woken : CvStatus → BlockQueue T → Popped T
  unfolding take_front
  pop_woken timeout q = refused
  pop_woken no_timeout q = if q.is_close then refused else take_front q q.queue

  unfoldable pub close : BlockQueue T → BlockQueue T
  close q = record q { queue = []; is_close = true }
