-- ===== src/Log/Files.antt =====
-- The files of the log: which file is open after write_log, and what the files hold after calls of
-- the macros where the log writes on the spot.
use tiny_web_server_learning.Prelude.{
  ℕ, suc, ◌<◌, ◌≡◌, refl, sym, subst, ◌∙◌, ap, Bool, true, false, List, [], ◌∷◌, ◌++◌, some, ◌==◌,
  if◌then◌else◌, length,
}
use tiny_web_server_learning.Memory.{ok, ◌>>=◌, Returns, returns, Returns-bind}
use tiny_web_server_learning.Memory.Strings.{NoNul}
use tiny_web_server_learning.Log.State.{Tm, Log}
use tiny_web_server_learning.Log.Write.{
  flush, flush_file, put_line, has_room, deliver, write_log, log_at,
}
use tiny_web_server_learning.Log.Stamp.{IsTime, line_of}
use tiny_web_server_learning.Log.Format.{format_line-fits}
use tiny_web_server_learning.Log.Rotate.{rotate-Turned, Ready, file_after}

-- A call of a macro has put its line at the end of what the files hold, and the log is as
-- before for the next call.
pub record Logged (dir log name : List ℕ) (tm : Tm) (line : List ℕ) (old l : Log) : Type 0 where
  pub ready : Ready dir log name l
  pub day : l.today ≡ tm.tm_mday
  pub counted : l.count ≡ (if old.today == tm.tm_mday then suc old.count else 0)
  pub kept_line : l.disk ≡ old.disk ++ (name, line) ∷ []
  pub same_size : l.buf.size ≡ old.buf.size
  pub same_async : l.is_async ≡ old.is_async
  pub same_close : l.close_log ≡ old.close_log

log_at-on :
    (can_open : List ℕ → Bool) (tm : Tm) (level : ℕ) (text : List ℕ) (l : Log)
    → l.close_log ≡ 0
    → log_at can_open tm level text l
      ≡ (write_log can_open tm level text l >>= λ written. ok (flush written))
unfolding log_at
log_at-on can_open tm level text l on =
    ap
      (λ n.
        if n == 0
        then (write_log can_open tm level text l >>= λ written. ok (flush written))
        else ok l)
      on

deliver-on_spot :
    (line name : List ℕ) (l : Log)
    → l.is_async ≡ false
    → l.fp ≡ some (record { name = name; unwritten = [] })
    → deliver line l ≡ ok (record l { fp = some (record { name = name; unwritten = line ∷ [] }) })
unfolding deliver has_room put_line
deliver-on_spot line name l sync opened = rw (sync, opened)

-- A call of LOG_DEBUG to LOG_ERROR, where the log is open, writes on the spot and every file can be
-- opened, ends with its line in the files, behind those of the calls before it: in the file
-- that was open, or in the next part of the day's file, when the count of lines reaches a
-- multiple of the split, or in the file of the day, when the day of the month is not that of
-- the call before. The line is the stamp, the text and a newline, and must be shorter than
-- the buffer.
pub log_at-Logged :
    (can_open : List ℕ → Bool)
    → ((p : List ℕ) → can_open p ≡ true)
    → (dir log name : List ℕ) (tm : Tm) (level : ℕ) (text : List ℕ) (l : Log) → Ready dir log name l
    → l.is_async ≡ false
    → l.close_log ≡ 0
    → IsTime tm
    → NoNul text
    → length (line_of tm level text) < l.buf.size
    → Returns
        (Logged dir log (file_after dir log tm name l) tm (line_of tm level text) l)
        (log_at can_open tm level text l)
unfolding write_log flush flush_file
log_at-Logged can_open opens dir log name tm level text l r sync on time clean less =
    let line = line_of tm level text in
    let after = file_after dir log tm name l in
    subst (Returns (Logged dir log after tm line l)) (sym (log_at-on can_open tm level text l on)) (
      Returns-bind
        (Returns-bind (rotate-Turned can_open opens dir log name tm l r) λ t turned.
          let (b, size, runs) =
            format_line-fits tm level text t time clean (rw turned.same_buf less) in
          let spot =
            deliver-on_spot line after (record t { buf = b }) (turned.same_async ∙ sync)
              turned.ready.opened in
          let done : Logged dir log after tm line l (
              flush (record t {
                buf = b;
                fp = some (record { name = after; unwritten = line ∷ [] });
              })) =
            record {
              ready = record {
                dir_is = turned.ready.dir_is;
                log_is = turned.ready.log_is;
                splits = turned.ready.splits;
                opened = refl;
              };
              day = turned.day;
              counted = turned.counted;
              kept_line = ap (λ d. d ++ (after, line) ∷ []) turned.same_disk;
              same_size = size ∙ ap (λ c. c.size) turned.same_buf;
              same_async = turned.same_async;
              same_close = turned.same_close;
            } in
          rw (runs, spot) (returns done))
        λ w h. returns h)
