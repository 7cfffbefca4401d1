-- ===== src/ThreadPool/Tests.antt =====
-- A task that is enqueued and taken by a worker, the end of the worker, and a task that comes too
-- late: a witness.
use tiny_web_server_learning.Prelude.{ℕ, refl, true, [], ◌∷◌}
use tiny_web_server_learning.ThreadPool.{enqueue, stop_pool, turn}
use tiny_web_server_learning.ThreadPool.Drain.{
  Pool, Steps, start, step, enqueues, stops, takes, leaves, fresh, Drains, Steps-Drains,
}

abbrev drained : Pool ℕ
drained = record {
  pool = record { tasks = 8 ∷ []; stop = true };
  given = 7 ∷ 8 ∷ [];
  late = 8 ∷ [];
  taken = 7 ∷ [];
  gone = 1;
}

run : Steps ℕ (fresh ℕ) drained
unfolding enqueue stop_pool turn
run =
    step (step (step (step (step start (enqueues 7)) stops) (takes 7 refl)) (leaves refl))
      (enqueues 8)

Steps-Drains_example : Drains ℕ drained
Steps-Drains_example = Steps-Drains ℕ drained run
