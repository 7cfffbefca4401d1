-- ===== src/Log/Threads.antt =====
-- Threads that write to the log and the writer of its queue, in any interleaving. A call of
-- write_log is in parts: two that hold the lock, the test of the queue, and the push or the write.
use tiny_web_server_learning.Prelude.{
  ℕ, ◌+◌, ◌≡◌, Bool, true, false, List, [], ◌∷◌, ◌++◌, Option, none, some,
}
use tiny_web_server_learning.Memory.{ok}
use tiny_web_server_learning.BlockQueue.{BlockQueue, item, push}
use tiny_web_server_learning.Log.State.{Tm, File, Log}
use tiny_web_server_learning.Log.Write.{
  flush, put_line, rotate, format_line, has_room, enqueue_line, take_line,
}

-- The log and the lines on their way: put together and not yet tested, on the way to the
-- queue, on the way to the file, in the hand of the writer, and lost; and all that were put
-- together.
pub record Threads : Type 0 where
  pub log : Log
  pub formatted : List (List ℕ)
  pub ready : List (List ℕ)
  pub chosen : List (List ℕ)
  pub direct : List (List ℕ)
  pub in_hand : List (List ℕ)
  pub lost : List (List ℕ)

abbrev pub fresh_threads : Log → Threads
fresh_threads l = record {
  log = l;
  formatted = [];
  ready = [];
  chosen = [];
  direct = [];
  in_hand = [];
  lost = [];
}

-- A line that the queue refuses goes nowhere.
abbrev pub lose : Bool → List ℕ → List (List ℕ) → List (List ℕ)
lose true line s = s
lose false line s = line ∷ s

-- A step of one thread.
pub data Step (can_open : List ℕ → Bool) (t : Threads) : Threads → Type 0 where
  rotates :
      (tm : Tm) {l : Log} → rotate can_open tm t.log ≡ ok l → Step can_open t (record t { log = l })
  formats :
      (tm : Tm) (level : ℕ) (text : List ℕ) {l : Log} {line : List ℕ}
      → format_line tm level text t.log ≡ ok (line, l)
      → Step can_open t
          (record t { log = l; formatted = line ∷ t.formatted; ready = line ∷ t.ready })
  chooses :
      (before after : List (List ℕ)) (line : List ℕ)
      → t.ready ≡ before ++ line ∷ after
      → has_room t.log ≡ ok true
      → Step can_open t (record t { ready = before ++ after; chosen = line ∷ t.chosen })
  declines :
      (before after : List (List ℕ)) (line : List ℕ)
      → t.ready ≡ before ++ line ∷ after
      → has_room t.log ≡ ok false
      → Step can_open t (record t { ready = before ++ after; direct = line ∷ t.direct })
  pushes :
      (before after : List (List ℕ)) (line : List ℕ) (q : BlockQueue (List ℕ)) {l : Log}
      → t.chosen ≡ before ++ line ∷ after
      → t.log.log_queue ≡ some q
      → enqueue_line line t.log ≡ ok l
      → Step can_open t
          (record t { log = l; chosen = before ++ after; lost = lose (push line q).0 line t.lost })
  puts :
      (before after : List (List ℕ)) (line : List ℕ) {l : Log}
      → t.direct ≡ before ++ line ∷ after
      → put_line t.log.fp line t.log ≡ ok l
      → Step can_open t (record t { log = l; direct = before ++ after })
  takes :
      {q : BlockQueue (List ℕ)} {line : List ℕ}
      → t.in_hand ≡ []
      → take_line t.log.log_queue ≡ item line q
      → Step can_open t
          (record t { log = record t.log { log_queue = some q }; in_hand = line ∷ [] })
  writes :
      (line : List ℕ) {l : Log}
      → t.in_hand ≡ line ∷ []
      → put_line t.log.fp line t.log ≡ ok l
      → Step can_open t (record t { log = l; in_hand = [] })
  flushes : Step can_open t (record t { log = flush t.log })

pub data Steps (can_open : List ℕ → Bool) (t : Threads) : Threads → Type 0 where
  start : Steps can_open t t
  step : {u v : Threads} → Steps can_open t u → Step can_open u v → Steps can_open t v

abbrev pub one : Bool → ℕ
one true = 1
one false = 0

-- How many lines pass a test.
abbrev pub how_many : (List ℕ → Bool) → List (List ℕ) → ℕ
how_many pass [] = 0
how_many pass (x ∷ s) = one (pass x) + how_many pass s

abbrev pub disk_lines : List (List ℕ × List ℕ) → List (List ℕ)
disk_lines [] = []
disk_lines ((name, line) ∷ d) = line ∷ disk_lines d

abbrev pub unwritten_lines : Option File → List (List ℕ)
unwritten_lines none = []
unwritten_lines (some f) = f.unwritten

abbrev pub queued_lines : Option (BlockQueue (List ℕ)) → List (List ℕ)
queued_lines none = []
queued_lines (some q) = q.queue

-- The lines that the log has: those in the files, those in the open stream and those in the queue.
abbrev pub stored : (List ℕ → Bool) → Log → ℕ
stored pass l =
    how_many pass (disk_lines l.disk)
    + how_many pass (unwritten_lines l.fp)
    + how_many pass (queued_lines l.log_queue)

-- The lines that are on their way.
abbrev pub under_way : (List ℕ → Bool) → Threads → ℕ
under_way pass t =
    how_many pass t.ready
    + how_many pass t.chosen
    + how_many pass t.direct
    + how_many pass t.in_hand
