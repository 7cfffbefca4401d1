-- ===== src/Log/Rotate.antt =====
-- Which file the log has open after the first part of write_log.
use mathlib.Core.List.{append-nil}
use tiny_web_server_learning.Prelude.{
  ℕ, suc, ◌/◌, ◌%◌, ◌<◌, ◌≡◌, refl, sym, ◌∙◌, ap, inl, inr, Bool, true, false, Bool-cases, List, [],
  ◌∷◌, ◌++◌, Option, some, arith, ◌==◌, ==_iff, if◌then◌else◌, take,
}
use tiny_web_server_learning.Memory.{ok, c_string-ok, IsString, Returns, returns}
use tiny_web_server_learning.CString.Print.{decimal_before}
use tiny_web_server_learning.Log.State.{Tm, File, Log, date, open_log}
use tiny_web_server_learning.Log.Write.{
  flush, flush_file, close_file, new_log_name, next_file, splits_here, rotate,
}

-- The file `name` is open and all that was put into it is written; the two parts of the file's
-- name are set, and there is a split.
pub record Ready (dir log : List ℕ) (name : List ℕ) (l : Log) : Type 0 where
  pub dir_is : IsString l.dir_name 0 dir
  pub log_is : IsString l.log_name 0 log
  pub splits : 0 < l.split_lines
  pub opened : l.fp ≡ some (record { name = name; unwritten = [] })

-- The name of the file of a day, and that of a later part of it.
abbrev pub day_file : List ℕ → List ℕ → Tm → List ℕ
day_file dir log tm = take 254 (dir ++ (take 15 (date tm) ++ log))

abbrev pub part_file : List ℕ → List ℕ → Tm → ℕ → List ℕ
part_file dir log tm k =
    take 254 ((dir ++ (take 15 (date tm) ++ log)) ++ (b'.' ∷ decimal_before 20 k []))

-- The file in which the line of a call goes.
abbrev pub file_after : List ℕ → List ℕ → Tm → List ℕ → Log → List ℕ
file_after dir log tm name l =
    if l.today == tm.tm_mday
    then (if suc l.count % l.split_lines == 0
        then part_file dir log tm (suc l.count / l.split_lines)
        else name)
    else day_file dir log tm

-- The log after its first part: the file is open, the day is that of the call, and what the log
-- has besides is as before.
pub record Turned (dir log name : List ℕ) (tm : Tm) (old l : Log) : Type 0 where
  pub ready : Ready dir log name l
  pub day : l.today ≡ tm.tm_mday
  pub counted : l.count ≡ (if old.today == tm.tm_mday then suc old.count else 0)
  pub same_disk : l.disk ≡ old.disk
  pub same_buf : l.buf ≡ old.buf
  pub same_async : l.is_async ≡ old.is_async
  pub same_close : l.close_log ≡ old.close_log

abbrev fresh_file : List ℕ → Option File
fresh_file name = some (record { name = name; unwritten = [] })

no_division : (n : ℕ) → 0 < n → (n == 0) ≡ false
no_division n h = ground arith

module _ (can_open : List ℕ → Bool) (opens : (p : List ℕ) → can_open p ≡ true) where
  -- A new part of the same day.
  next_part :
      (dir log name : List ℕ) (tm : Tm) (l : Log)
      → Ready dir log name l
      → (l.today == tm.tm_mday) ≡ true
      → next_file can_open tm l
        ≡ ok (record l {
          fp = fresh_file (part_file dir log tm (l.count / l.split_lines));
          disk = (l.disk ++ []) ++ [];
        })
  unfolding next_file flush flush_file close_file new_log_name open_log
  next_part dir log name tm l r same = rw (
    r.opened,
    c_string-ok l.dir_name 0 dir r.dir_is,
    c_string-ok l.log_name 0 log r.log_is,
    same,
    opens (part_file dir log tm (l.count / l.split_lines)),
  )

  -- The file of a new day.
  next_day :
      (dir log name : List ℕ) (tm : Tm) (l : Log)
      → Ready dir log name l
      → (l.today == tm.tm_mday) ≡ false
      → next_file can_open tm l
        ≡ ok (record l {
          fp = fresh_file (day_file dir log tm);
          disk = (l.disk ++ []) ++ [];
          today = tm.tm_mday;
          count = 0;
        })
  unfolding next_file flush flush_file close_file new_log_name open_log
  next_day dir log name tm l r new = rw (
    r.opened,
    c_string-ok l.dir_name 0 dir r.dir_is,
    c_string-ok l.log_name 0 log r.log_is,
    new,
    opens (day_file dir log tm),
  )

  pub rotate-Turned :
      (dir log name : List ℕ) (tm : Tm) (l : Log)
      → Ready dir log name l
      → Returns (Turned dir log (file_after dir log tm name l) tm l) (rotate can_open tm l)
  unfolding rotate splits_here
  rotate-Turned dir log name tm l r =
      let counted : Log = record l { count = suc l.count } in
      let ready : Ready dir log name counted = record {
        dir_is = r.dir_is;
        log_is = r.log_is;
        splits = r.splits;
        opened = r.opened;
      } in
      let disk : (l.disk ++ []) ++ [] ≡ l.disk = append-nil (l.disk ++ []) ∙ append-nil l.disk in
      elim (Bool-cases (l.today == tm.tm_mday)) [
        | inl same ↦
            let day : l.today ≡ tm.tm_mday = ((==_iff l.today tm.tm_mday).0 same) in
            elim (Bool-cases (suc l.count % l.split_lines == 0)) [
              | inl due ↦
                  rw
                    (
                      same,
                      no_division l.split_lines r.splits,
                      due,
                      next_part dir log name tm counted ready same,
                    )
                    (returns (record {
                      ready = record {
                        dir_is = r.dir_is;
                        log_is = r.log_is;
                        splits = r.splits;
                        opened = refl;
                      };
                      day = day;
                      counted = ap (λ b. if b then suc l.count else 0) (sym same);
                      same_disk = disk;
                      same_buf = refl;
                      same_async = refl;
                      same_close = refl;
                    }))
              | inr not_due ↦
                  rw (same, no_division l.split_lines r.splits, not_due)
                    (returns (record {
                      ready = record {
                        dir_is = r.dir_is;
                        log_is = r.log_is;
                        splits = r.splits;
                        opened = r.opened;
                      };
                      day = day;
                      counted = ap (λ b. if b then suc l.count else 0) (sym same);
                      same_disk = refl;
                      same_buf = refl;
                      same_async = refl;
                      same_close = refl;
                    }))
            ]
        | inr new ↦
            rw (new, next_day dir log name tm counted ready new)
              (returns (record {
                ready = record {
                  dir_is = r.dir_is;
                  log_is = r.log_is;
                  splits = r.splits;
                  opened = refl;
                };
                day = refl;
                counted = ap (λ b. if b then suc l.count else 0) (sym new);
                same_disk = disk;
                same_buf = refl;
                same_async = refl;
                same_close = refl;
              }))
      ]
