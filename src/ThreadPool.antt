-- ===== src/ThreadPool.antt =====
-- The worker threads, src/ThreadPool.h. What a worker does under the lock, between two waits on
-- the condition, is one step.
pub mod Drain
mod Tests
use tiny_web_server_learning.Prelude.{Bool, true, false, List, [], ◌∷◌, ◌++◌}

pub record ThreadPool {ℓ} (Task : Type ℓ) : Type ℓ where
  pub tasks : List Task
  pub stop : Bool

module _ {ℓ} {Task : Type ℓ} where
  abbrev pub fresh_pool : ThreadPool Task
  fresh_pool = record { tasks = []; stop = false }

  unfoldable pub enqueue : Task → ThreadPool Task → ThreadPool Task
  enqueue task p = record p { tasks = p.tasks ++ task ∷ [] }

  -- The first statement of the destructor, which then wakes the workers and waits for them.
  unfoldable pub stop_pool : ThreadPool Task → ThreadPool Task
  stop_pool p = record p { stop = true }

-- What a worker does that holds the lock.
pub data Turn {ℓ} (Task : Type ℓ) : Type ℓ where
  sleeps exits : Turn Task
  runs : Task → ThreadPool Task → Turn Task

module _ {ℓ} {Task : Type ℓ} where
  turn_on : ThreadPool Task → List Task → Bool → Turn Task
  turn_on p [] false = sleeps
  turn_on p [] true = exits
  turn_on p (task ∷ rest) stop = runs task (record p { tasks = rest })

  unfoldable pub turn : ThreadPool Task → Turn Task
  unfolding turn_on
  turn p = turn_on p p.tasks p.stop
