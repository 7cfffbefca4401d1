-- ===== src/Log/Account.antt =====
-- What becomes of every line that threads write to the log.
use tiny_web_server_learning.Prelude.{ℕ, ◌+◌, ◌≡◌, refl, ap, subst, Bool, List, arith}
use tiny_web_server_learning.Memory.{Run, ok}
use tiny_web_server_learning.Memory.Partial.{Allows, allows}
use tiny_web_server_learning.Log.State.{Log}
use tiny_web_server_learning.Log.Threads.{
  Threads, fresh_threads, Step, rotates, formats, chooses, declines, pushes, puts, takes, writes,
  flushes, Steps, start, step, how_many, stored, under_way,
}
use tiny_web_server_learning.Log.Kept.{
  how_many-taken, flush-Keeps, rotate-Keeps, format_line-Keeps, put_line-Keeps, enqueue_line-Keeps,
  take_line-Keeps,
}

Allows-result {ℓ κ} :
    {A : Type ℓ} {P : A → Type κ} {r : Run A} {a : A} → Allows P r → r ≡ ok a → P a
Allows-result {P} {r} {a} h e = from (subst (Allows P) e h)
  where
    from : Allows P (ok a) → P a
    from (allows p) = p

module _ (pass : List ℕ → Bool) where
  Accounted : Log → Threads → Type 0
  Accounted l t =
      how_many pass t.formatted + stored pass l
      ≡ stored pass t.log + under_way pass t + how_many pass t.lost

  Step-Accounted :
      {can_open : List ℕ → Bool} (l : Log) {t u : Threads}
      → Accounted l t
      → Step can_open t u
      → Accounted l u
  unfolding Accounted
  Step-Accounted l {t} h (rotates tm e) =
      omega (arith, h, Allows-result (rotate-Keeps pass _ tm t.log) e)
  Step-Accounted l {t} h (formats tm level text e) =
      omega (arith, h, Allows-result (format_line-Keeps pass tm level text t.log) e)
  Step-Accounted l {t} h (chooses before after line e room) =
      omega (arith, h, how_many-taken pass t.ready before after line e)
  Step-Accounted l {t} h (declines before after line e room) =
      omega (arith, h, how_many-taken pass t.ready before after line e)
  Step-Accounted l {t} h (pushes before after line q e there r) = omega (
    arith,
    h,
    how_many-taken pass t.chosen before after line e,
    Allows-result (enqueue_line-Keeps pass t.log q line t.lost there) r,
  )
  Step-Accounted l {t} h (puts before after line e r) = omega (
    arith,
    h,
    how_many-taken pass t.direct before after line e,
    Allows-result (put_line-Keeps pass t.log t.log.fp line refl) r,
  )
  Step-Accounted l {t} h (takes {q} {line} empty e) =
      omega (arith, h, ap (how_many pass) empty, take_line-Keeps pass t.log.log_queue q line e)
  Step-Accounted l {t} h (writes line e r) = omega (
    arith,
    h,
    ap (how_many pass) e,
    Allows-result (put_line-Keeps pass t.log t.log.fp line refl) r,
  )
  Step-Accounted l {t} h flushes = omega (arith, h, flush-Keeps pass t.log)

  Steps-Accounted :
      {can_open : List ℕ → Bool} (l : Log) {t : Threads}
      → Steps can_open (fresh_threads l) t
      → Accounted l t
  unfolding Accounted
  Steps-Accounted l start = omega arith
  Steps-Accounted l (step before last) = Step-Accounted l (Steps-Accounted l before) last

-- However the threads and the writer of the queue come between each other, the lines that were put
-- together since the log was `l`, with those that `l` had, are those in the files, in the
-- open stream and in the queue, those on their way there, and those that the queue refused:
-- no line is lost in another way, and none is written twice. Lines are counted by any test.
pub Steps-stored :
    (can_open : List ℕ → Bool) (l : Log) (t : Threads) (pass : List ℕ → Bool)
    → Steps can_open (fresh_threads l) t
    → how_many pass t.formatted + stored pass l
      ≡ stored pass t.log + under_way pass t + how_many pass t.lost
unfolding Accounted
Steps-stored can_open l t pass steps = Steps-Accounted pass l steps
