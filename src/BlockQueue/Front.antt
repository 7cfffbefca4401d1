-- ===== src/BlockQueue/Front.antt =====
-- What a pop of the queue of src/block_queue.h delivers is the first item, and the rest stays.
use tiny_web_server_learning.Prelude.{
  ◌≡◌, refl, subst, Bool, true, false, List, [], ◌∷◌, if◌then◌else◌,
}
use tiny_web_server_learning.BlockQueue.{
  BlockQueue, pop, Popped, item, waits, refused, take_front, is_empty,
}

module _ {ℓ} {T : Type ℓ} where
  Fronts : BlockQueue T → Popped T → Type ℓ
  Fronts q waits = Unit
  Fronts q refused = Unit
  Fronts q (item x r) = q.queue ≡ x ∷ r.queue

  Fronts-pop :
      (q : BlockQueue T) (s : List T)
      → q.queue ≡ s
      → Fronts q (if is_empty s then (if q.is_close then refused else waits) else take_front q s)
  unfolding Fronts take_front
  Fronts-pop q [] e = closed q.is_close
    where
      closed : (b : Bool) → Fronts q (if b then refused else waits)
      closed true = tt
      closed false = tt
  Fronts-pop q (x ∷ s) e = e

  pub pop-front : (q r : BlockQueue T) (x : T) → pop q ≡ item x r → q.queue ≡ x ∷ r.queue
  unfolding Fronts pop
  pop-front q r x e = subst (Fronts q) e (Fronts-pop q q.queue refl)
