-- ===== src/Log/Kept.antt =====
-- No part of write_log loses or doubles a line: how many lines of a kind the files, the stream and
-- the queue have, before and after.
use tiny_web_server_learning.Prelude.{
  ℕ, suc, ◌+◌, ◌≡◌, refl, ◌∙◌, ap, Bool, Bool-cases, inl, inr, not, List, [], ◌∷◌, ◌++◌, map,
  Option, none, some, arith, leb, ◌==◌, length,
}
use tiny_web_server_learning.Memory.{c_string}
use tiny_web_server_learning.Memory.Partial.{
  Allows, allows, faults, Allows-any, Allows-bind, Allows-if,
}
use tiny_web_server_learning.BlockQueue.Front.{pop-front}
use tiny_web_server_learning.BlockQueue.{BlockQueue, refused, item, push}
use tiny_web_server_learning.Log.State.{Tm, File, Log, open_log}
use tiny_web_server_learning.Log.Write.{
  on_disk, flush, flush_file, close_file, put_line, new_log_name, next_file, splits_here, rotate,
  stamp, print_line, format_line, push_line, enqueue_line, take_line,
}
use tiny_web_server_learning.Log.Threads.{
  one, how_many, disk_lines, unwritten_lines, queued_lines, stored, lose,
}

module _ (pass : List ℕ → Bool) where
  pub how_many-append :
      (s t : List (List ℕ)) → how_many pass (s ++ t) ≡ how_many pass s + how_many pass t
  how_many-append [] t = omega arith
  how_many-append (x ∷ s) t = omega (arith, how_many-append s t)

  pub how_many-on_disk :
      (d : List (List ℕ × List ℕ)) (f : File)
      → how_many pass (disk_lines (d ++ on_disk f))
        ≡ how_many pass (disk_lines d) + how_many pass f.unwritten
  how_many-on_disk ((name, line) ∷ d) f = omega (arith, how_many-on_disk d f)
  how_many-on_disk [] f = omega (arith, go f.unwritten)
    where
      go :
          (s : List (List ℕ))
          → how_many pass (disk_lines (map (λ line. (f.name, line)) s)) ≡ how_many pass s
      go [] = refl
      go (x ∷ s) = omega (arith, go s)

  pub how_many-taken :
      (s before after : List (List ℕ)) (x : List ℕ)
      → s ≡ before ++ x ∷ after
      → how_many pass s ≡ one (pass x) + how_many pass (before ++ after)
  how_many-taken s before after x e = omega (
    arith,
    ap (how_many pass) e,
    how_many-append before (x ∷ after),
    how_many-append before after,
  )

  -- Without the stream.
  abbrev saved : Log → ℕ
  saved l = how_many pass (disk_lines l.disk) + how_many pass (queued_lines l.log_queue)

  -- The files, the stream and the queue have as many lines as before.
  abbrev Keeps : Log → Log → Type 0
  Keeps l k = stored pass k ≡ stored pass l

  pub flush_file-Keeps : (l : Log) (fp : Option File) → l.fp ≡ fp → Keeps l (flush_file fp l)
  unfolding flush_file
  flush_file-Keeps l none e = refl
  flush_file-Keeps l (some f) e =
      omega (arith, how_many-on_disk l.disk f, ap (λ fp. how_many pass (unwritten_lines fp)) e)

  pub flush-Keeps : (l : Log) → Keeps l (flush l)
  unfolding flush
  flush-Keeps l = flush_file-Keeps l l.fp refl

  pub close_file-saved :
      (l : Log) (fp : Option File)
      → l.fp ≡ fp
      → Allows (λ k. saved k ≡ stored pass l) (close_file fp l)
  unfolding close_file
  close_file-saved l none e = faults
  close_file-saved l (some f) e =
      allows
        (omega (arith, how_many-on_disk l.disk f, ap (λ fp. how_many pass (unwritten_lines fp)) e))

  pub open_log-stored :
      (can_open : List ℕ → Bool) (name : List ℕ) (l : Log)
      → stored pass (open_log can_open name l) ≡ saved l
  unfolding open_log
  open_log-stored can_open name l = elim (Bool-cases (can_open name)) [
    | inl opens ↦ rw opens (omega arith)
    | inr fails ↦ rw fails (omega arith)
  ]

  pub new_log_name-saved :
      (tm : Tm) (l : Log) → Allows (λ (name, k). saved k ≡ saved l) (new_log_name tm l)
  unfolding new_log_name
  new_log_name-saved tm l = Allows-any (c_string l.dir_name 0) λ dir.
      Allows-any (c_string l.log_name 0)
        λ name. Allows-if (l.today == tm.tm_mday) (allows refl) (allows refl)

  pub next_file-Keeps :
      (can_open : List ℕ → Bool) (tm : Tm) (l : Log)
      → Allows (λ k. stored pass k ≡ stored pass l) (next_file can_open tm l)
  unfolding next_file
  next_file-Keeps can_open tm l =
      Allows-bind (close_file-saved (flush l) (flush l).fp refl) λ closed e.
        Allows-bind (new_log_name-saved tm closed)
          λ (name, named) f. allows (open_log-stored can_open name named ∙ f ∙ e ∙ flush-Keeps l)

  pub rotate-Keeps :
      (can_open : List ℕ → Bool) (tm : Tm) (l : Log)
      → Allows (λ k. stored pass k ≡ stored pass l) (rotate can_open tm l)
  unfolding rotate
  rotate-Keeps can_open tm old =
      let l : Log = record old { count = suc old.count } in
      Allows-if (not (l.today == tm.tm_mday)) (next_file-Keeps can_open tm l) (
        Allows-any (splits_here l)
          λ due. Allows-if due (next_file-Keeps can_open tm l) (allows refl))

  pub format_line-Keeps :
      (tm : Tm) (level : ℕ) (text : List ℕ) (l : Log)
      → Allows (λ (line, k). stored pass k ≡ stored pass l) (format_line tm level text l)
  unfolding format_line
  format_line-Keeps tm level text l =
      Allows-any (print_line l.buf (stamp tm level) text) λ (line, b). allows refl

  pub put_line-Keeps :
      (l : Log) (fp : Option File) (line : List ℕ)
      → l.fp ≡ fp
      → Allows (λ k. stored pass k ≡ one (pass line) + stored pass l) (put_line fp line l)
  unfolding put_line
  put_line-Keeps l none line e = faults
  put_line-Keeps l (some f) line e = allows (
      omega (
        arith,
        how_many-append f.unwritten (line ∷ []),
        ap (λ fp. how_many pass (unwritten_lines fp)) e,
      ))

  -- What the queue takes and what it refuses.
  pub push-Keeps :
      (q : BlockQueue (List ℕ)) (line : List ℕ) (lost : List (List ℕ))
      → how_many pass (push line q).1.queue + how_many pass (lose (push line q).0 line lost)
        ≡ how_many pass q.queue + one (pass line) + how_many pass lost
  unfolding push
  push-Keeps q line lost = elim (Bool-cases (leb q.max_size (length q.queue))) [
    | inl is_full ↦ rw is_full (omega arith)
    | inr room ↦ rw room (omega (arith, how_many-append q.queue (line ∷ [])))
  ]

  push_line-Keeps :
      (l : Log) (queue : Option (BlockQueue (List ℕ))) (q : BlockQueue (List ℕ)) (line : List ℕ)
      (lost : List (List ℕ))
      → l.log_queue ≡ queue
      → queue ≡ some q
      → Allows
          (λ k.
            stored pass k + how_many pass (lose (push line q).0 line lost)
            ≡ stored pass l + one (pass line) + how_many pass lost)
          (push_line queue line l)
  unfolding push_line
  push_line-Keeps l none q line lost e f = absurd (some_none f)
    where
      some_none : none ≡ some q → ⊥
      some_none g = cc
  push_line-Keeps l (some r) q line lost e f =
      let same : r ≡ q = some-injective f in
      rw same (
        allows (
          omega (
            arith,
            push-Keeps q line lost,
            ap (λ o. how_many pass (queued_lines o)) e,
            ap (λ s. how_many pass s.queue) same,
          )))
    where
      some-injective : some r ≡ some q → r ≡ q
      some-injective g = cc

  pub enqueue_line-Keeps :
      (l : Log) (q : BlockQueue (List ℕ)) (line : List ℕ) (lost : List (List ℕ))
      → l.log_queue ≡ some q
      → Allows
          (λ k.
            stored pass k + how_many pass (lose (push line q).0 line lost)
            ≡ stored pass l + one (pass line) + how_many pass lost)
          (enqueue_line line l)
  unfolding enqueue_line
  enqueue_line-Keeps l q line lost e = push_line-Keeps l l.log_queue q line lost refl e

  -- The writer takes the first line of the queue.
  pub take_line-Keeps :
      (queue : Option (BlockQueue (List ℕ))) (q : BlockQueue (List ℕ)) (line : List ℕ)
      → take_line queue ≡ item line q
      → how_many pass (queued_lines queue) ≡ one (pass line) + how_many pass q.queue
  unfolding take_line
  take_line-Keeps none q line e = absurd (never e)
    where
      never : refused ≡ item line q → ⊥
      never g = cc
  take_line-Keeps (some r) q line e = ap (how_many pass) (pop-front r q line e)
