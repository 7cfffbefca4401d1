-- ===== src/BlockQueue/Tests.antt =====
-- A queue with room for one item: a witness.
use tiny_web_server_learning.Prelude.{ℕ, refl, false, [], ◌∷◌}
use tiny_web_server_learning.BlockQueue.{BlockQueue, make_queue, push, pop}
use tiny_web_server_learning.BlockQueue.Fifo.{
  Queue, Steps, start, step, pushes, pops, fresh, Fifo, make_queue-Fifo,
}

abbrev one_place : BlockQueue ℕ
one_place = record { queue = []; max_size = 1; is_close = false }

-- The second push was refused, and the first item popped.
abbrev used : Queue ℕ
used = record { queue = one_place; accepted = 5 ∷ []; settled = 5 ∷ [] }

run : Steps ℕ (fresh ℕ one_place) used
unfolding push pop
run = step (step (step start (pushes 5)) (pushes 6)) pops

make_queue-Fifo_example : Fifo ℕ 1 used
unfolding make_queue
make_queue-Fifo_example = make_queue-Fifo ℕ 1 one_place used refl run
