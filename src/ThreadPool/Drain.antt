-- ===== src/ThreadPool/Drain.antt =====
-- The workers take the tasks in the order in which they came, and return when none is left.
use tiny_web_server_learning.Prelude.{
  ℕ, suc, ◌≡◌, refl, ◌∙◌, sym, ap, ◌⊎◌, inl, inr, Bool, true, false, List, [], ◌∷◌, ◌++◌,
  if◌then◌else◌,
}
use mathlib.Core.List.{append_assoc, append-nil}
use tiny_web_server_learning.ThreadPool.{
  ThreadPool, fresh_pool, enqueue, stop_pool, exits, runs, turn, turn_on,
}

module _ (Task : Type 0) where
  -- The pool, the tasks that were ever enqueued, those of them that came when it was stopping, and
  -- those that a worker has taken, each in their order, and how many workers have returned.
  pub record Pool : Type 0 where
    pub pool : ThreadPool Task
    pub given : List Task
    pub late : List Task
    pub taken : List Task
    pub gone : ℕ

  abbrev pub late_with : Bool → Task → List Task → List Task
  late_with stop task late = if stop then late ++ task ∷ [] else late

  pub data Step (s : Pool) : Pool → Type 0 where
    enqueues :
        (task : Task)
        → Step s (record s {
          pool = enqueue task s.pool;
          given = s.given ++ task ∷ [];
          late = late_with s.pool.stop task s.late;
        })
    stops : Step s (record s { pool = stop_pool s.pool })
    takes :
        {p : ThreadPool Task} (task : Task)
        → turn s.pool ≡ runs task p
        → Step s (record s { pool = p; taken = s.taken ++ task ∷ [] })
    leaves : turn s.pool ≡ exits → Step s (record s { gone = suc s.gone })

  pub data Steps (s : Pool) : Pool → Type 0 where
    start : Steps s s
    step : {t u : Pool} → Steps s t → Step t u → Steps s u

  abbrev pub fresh : Pool
  fresh = record { pool = fresh_pool; given = []; late = []; taken = []; gone = 0 }

  -- No worker has returned, or the pool is stopping and what waits came when it was, as the last.
  abbrev pub Done : ℕ → Bool → List Task → List Task → Type 0
  Done gone stop late tasks =
      (gone ≡ 0) ⊎ ((stop ≡ true) × (before : List Task) × (late ≡ before ++ tasks))

  -- What was given is what was taken and what waits.
  pub record Drains (s : Pool) : Type 0 where
    pub in_order : s.given ≡ s.taken ++ s.pool.tasks
    pub done : Done s.gone s.pool.stop s.late s.pool.tasks

  turn_on-runs :
      (p q : ThreadPool Task) (task : Task) (l : List Task) (b : Bool)
      → turn_on p l b ≡ runs task q
      → (l ≡ task ∷ q.tasks) × (q.stop ≡ p.stop)
  unfolding turn_on
  turn_on-runs p q task [] true h = cc h
  turn_on-runs p q task [] false h = cc h
  turn_on-runs p q task (x ∷ rest) b h =
      let first : x ≡ task = cc in
      let left : record p { tasks = rest } ≡ q = cc in
      (ap (λ t. t ∷ rest) first ∙ ap (λ r. task ∷ r.tasks) left, sym (ap (λ r. r.stop) left))

  turn_on-exits :
      (p : ThreadPool Task) (l : List Task) (b : Bool)
      → turn_on p l b ≡ exits
      → (l ≡ []) × (b ≡ true)
  unfolding turn_on
  turn_on-exits p [] true h = (refl, refl)
  turn_on-exits p [] false h = cc h
  turn_on-exits p (x ∷ rest) b h = cc h

  enqueue-Done :
      (gone : ℕ) (stop : Bool) (late tasks : List Task) (task : Task)
      → Done gone stop late tasks
      → Done gone stop (late_with stop task late) (tasks ++ task ∷ [])
  enqueue-Done gone stop late tasks task (inl nobody) = inl nobody
  enqueue-Done gone true late tasks task (inr (stopped, before, e)) =
      inr (refl, before, ap (λ l. l ++ task ∷ []) e ∙ append_assoc before tasks (task ∷ []))
  enqueue-Done gone false late tasks task (inr (stopped, before, e)) = cc stopped

  stop-Done :
      (gone : ℕ) (stop : Bool) (late tasks : List Task)
      → Done gone stop late tasks
      → Done gone true late tasks
  stop-Done gone stop late tasks (inl nobody) = inl nobody
  stop-Done gone stop late tasks (inr (stopped, before, e)) = inr (refl, before, e)

  take-Done :
      (gone : ℕ) (stop : Bool) (late tasks rest : List Task) (task : Task)
      → tasks ≡ task ∷ rest
      → Done gone stop late tasks
      → Done gone stop late rest
  take-Done gone stop late tasks rest task front (inl nobody) = inl nobody
  take-Done gone stop late tasks rest task front (inr (stopped, before, e)) = inr (
    stopped,
    before ++ task ∷ [],
    e ∙ ap (λ l. before ++ l) front ∙ sym (append_assoc before (task ∷ []) rest),
  )

  Step-Drains : (s t : Pool) → Drains s → Step s t → Drains t
  unfolding enqueue stop_pool turn
  Step-Drains s t d (enqueues task) = record {
    in_order = ap (λ l. l ++ task ∷ []) d.in_order ∙ append_assoc s.taken s.pool.tasks (task ∷ []);
    done = enqueue-Done s.gone s.pool.stop s.late s.pool.tasks task d.done;
  }
  Step-Drains s t d stops = record {
    in_order = d.in_order;
    done = stop-Done s.gone s.pool.stop s.late s.pool.tasks d.done;
  }
  Step-Drains s t d (takes {p = q} task h) =
      let (front, stop) = turn_on-runs s.pool q task s.pool.tasks s.pool.stop h in
      record {
        in_order =
            d.in_order
            ∙ ap (λ l. s.taken ++ l) front
            ∙ sym (append_assoc s.taken (task ∷ []) q.tasks);
        done = rw stop (take-Done s.gone s.pool.stop s.late s.pool.tasks q.tasks task front d.done);
      }
  Step-Drains s t d (leaves h) =
      let (empty, stop) = turn_on-exits s.pool s.pool.tasks s.pool.stop h in
      record {
        in_order = d.in_order;
        done = inr (stop, s.late, sym (append-nil s.late) ∙ ap (λ l. s.late ++ l) (sym empty));
      }

-- Whatever the workers and the clients of a pool do, in any order of their steps: the tasks that
-- were enqueued are, in their order, those that a worker has taken and then those that wait; and
-- once a worker has returned, the pool is stopping, and every task that waits was enqueued after the
-- destructor had set `stop`: all that came before have been taken.
pub Steps-Drains : (Task : Type 0) (s : Pool Task) → Steps Task (fresh Task) s → Drains Task s
Steps-Drains Task s start = record { in_order = refl; done = inl refl }
Steps-Drains Task s (step {t = t} before last) =
    Step-Drains Task t s (Steps-Drains Task t before) last
