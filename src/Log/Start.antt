-- ===== src/Log/Start.antt =====
-- Log::init of src/log.cpp: how the names of the files are taken from the name that it is given.
use mathlib.Core.List.{append-nil}
use tiny_web_server_learning.Prelude.{
  ℕ, zero, suc, ◌<◌, ◌≡◌, refl, ap, subst, inr, Bool, true, false, not, List, [], ◌∷◌, ◌++◌, none,
  some, arith, ◌==◌, length, length-append, take, drop,
}
use tiny_web_server_learning.Memory.{ok, c_string-ok, IsString, strcpy, Returns, returns}
use tiny_web_server_learning.Memory.Strings.{
  NoNul, written, write_bytes-ok, size-written, at-written, SpellsAt-written,
}
use tiny_web_server_learning.Memory.Bytes.{Bytes, Bytes-written, SpellsAt-Bytes}
use tiny_web_server_learning.CString.{contains, strrchr}
use tiny_web_server_learning.BlockQueue.{make_queue}
use tiny_web_server_learning.Log.State.{Tm, Log, new_log, zeros, date, open_log}
use tiny_web_server_learning.Log.Open.{log_full_name, name_by, split_name, start_queue, init}
use tiny_web_server_learning.Log.Rotate.{Ready}

strrchr-absent : (s : List ℕ) (c : ℕ) → contains c s ≡ false → strrchr s c ≡ none
unfolding contains strrchr
strrchr-absent [] c h = refl
strrchr-absent (d ∷ s) c h = rw (strrchr-absent s c (ground (arith, h))) (ground (arith, h))

strrchr-last :
    (s t : List ℕ) (c : ℕ) → contains c t ≡ false → strrchr (s ++ c ∷ t) c ≡ some (length s)
unfolding strrchr
strrchr-last [] t c h = rw (strrchr-absent t c h) (ground arith)
strrchr-last (d ∷ s) t c h = rw (strrchr-last s t c h)

take_front : (s t : List ℕ) (c : ℕ) → take (suc (length s)) (s ++ c ∷ t) ≡ s ++ c ∷ []
take_front [] t c = refl
take_front (d ∷ s) t c = ap (◌∷◌ d) (take_front s t c)

drop_back : (s t : List ℕ) (c : ℕ) → drop (suc (length s)) (s ++ c ∷ t) ≡ t
drop_back [] t c = refl
drop_back (d ∷ s) t c = drop_back s t c

-- A string that is written over zeros needs no NUL of its own.
pub IsString-over_zeros :
    (n : ℕ) (s : List ℕ) → NoNul s → length s < n → IsString (written (zeros n) 0 s) 0 s
IsString-over_zeros n s clean room = record {
  inside = omega (arith, size-written (zeros n) 0 s, room);
  spells =
      SpellsAt-Bytes (written (zeros n) 0 s) 0 (length s) s (omega arith) clean
        (subst (λ t. Bytes (written (zeros n) 0 t) 0 s) (append-nil s)
          (Bytes-written (zeros n) 0 s []))
        (at-written (zeros n) 0 s (length s) (inr (omega arith)));
}

IsString-copied :
    (n : ℕ) (s : List ℕ) → NoNul s → length s < n → IsString (written (zeros n) 0 (s ++ 0 ∷ [])) 0 s
IsString-copied n s clean room = record {
  inside = omega (arith, size-written (zeros n) 0 (s ++ 0 ∷ []), room);
  spells = SpellsAt-written (zeros n) 0 s clean;
}

-- The names are set, and the day goes in front of the file's name.
log_full_name-split :
    (tm : Tm) (path log : List ℕ) (l : Log)
    → l.dir_name ≡ zeros 128
    → l.log_name ≡ zeros 128
    → contains b'/' log ≡ false
    → NoNul log
    → length log < 128
    → NoNul (path ++ b'/' ∷ [])
    → length (path ++ b'/' ∷ []) < 128
    → log_full_name tm (path ++ b'/' ∷ log) l
      ≡ ok (
        take 254 ((path ++ b'/' ∷ []) ++ (date tm ++ log)),
        record l {
          log_name = written (zeros 128) 0 (log ++ 0 ∷ []);
          dir_name = written (zeros 128) 0 (path ++ b'/' ∷ []);
        },
      )
unfolding log_full_name name_by split_name strcpy
log_full_name-split tm path log l dir0 log0 plain log_clean log_short dir_clean dir_short =
    let dir = path ++ b'/' ∷ [] in
    rw (
      strrchr-last path log b'/' plain,
      take_front path log b'/',
      drop_back path log b'/',
      dir0,
      log0,
      write_bytes-ok (zeros 128) 0 (log ++ 0 ∷ [])
          (omega (arith, length-append log (0 ∷ []), log_short)),
      write_bytes-ok (zeros 128) 0 dir (omega (arith, dir_short)),
      c_string-ok (written (zeros 128) 0 dir) 0 dir
          (IsString-over_zeros 128 dir dir_clean dir_short),
      c_string-ok (written (zeros 128) 0 (log ++ 0 ∷ [])) 0 log
          (IsString-copied 128 log log_clean log_short),
    )

-- The log after init: it has the names and the limits that it was given, and an empty queue where
-- it is asynchronous.
pub record Started (dir log name : List ℕ) (tm : Tm) (close_log size split max : ℕ) (l : Log)
    : Type 0 where
  pub ready : Ready dir log name l
  pub day : l.today ≡ tm.tm_mday
  pub from_zero : l.count ≡ 0
  pub nothing : l.disk ≡ []
  pub same_size : l.buf.size ≡ size
  pub closed : l.close_log ≡ close_log
  pub async : l.is_async ≡ not (max == 0)
  pub queued : l.log_queue ≡ make_queue max

-- The queue and its thread leave the rest of a new log as it is.
record Queued (max : ℕ) (l : Log) : Type 0 where
  no_dir : l.dir_name ≡ zeros 128
  no_log : l.log_name ≡ zeros 128
  no_count : l.count ≡ 0
  no_lines : l.disk ≡ []
  is_async : l.is_async ≡ not (max == 0)
  in_queue : l.log_queue ≡ make_queue max

start_queue-Queued : (max : ℕ) → Queued max (start_queue max new_log)
unfolding start_queue make_queue
start_queue-Queued zero = record {
  no_dir = refl;
  no_log = refl;
  no_count = refl;
  no_lines = refl;
  is_async = refl;
  in_queue = refl;
}
start_queue-Queued (suc n) = record {
  no_dir = refl;
  no_log = refl;
  no_count = refl;
  no_lines = refl;
  is_async = ground arith;
  in_queue = refl;
}

-- init of a path with a slash, whose directory and file name have less than 128 bytes, opens the
-- file with the day in front of the name and sets the log up as it is told.
pub init-Started :
    (can_open : List ℕ → Bool) (tm : Tm) (path log : List ℕ) (close_log size split max : ℕ)
    → ((p : List ℕ) → can_open p ≡ true)
    → contains b'/' log ≡ false
    → NoNul log
    → length log < 128
    → NoNul (path ++ b'/' ∷ [])
    → length (path ++ b'/' ∷ []) < 128
    → 0 < split
    → let dir = path ++ b'/' ∷ [] in
      Returns
        (λ (opened, l).
          (opened ≡ true)
          × Started dir log (take 254 (dir ++ (date tm ++ log))) tm close_log size split max l)
        (init can_open tm (path ++ b'/' ∷ log) close_log size split max new_log)
unfolding init open_log
init-Started can_open tm path log close_log size split max opens plain log_clean log_short dir_clean
      dir_short some_split =
    let dir = path ++ b'/' ∷ [] in
    let q = start_queue-Queued max in
    let set_up : Log = record (start_queue max new_log) {
      close_log = close_log;
      buf = zeros size;
      split_lines = split;
    } in
    rw
      (
        log_full_name-split tm path log set_up q.no_dir q.no_log plain log_clean log_short dir_clean
            dir_short,
        opens (take 254 (dir ++ (date tm ++ log))),
      )
      (returns (
        refl,
        record {
          ready = record {
            dir_is = IsString-over_zeros 128 dir dir_clean dir_short;
            log_is = IsString-copied 128 log log_clean log_short;
            splits = some_split;
            opened = refl;
          };
          day = refl;
          from_zero = q.no_count;
          nothing = q.no_lines;
          same_size = refl;
          closed = refl;
          async = q.is_async;
          queued = q.in_queue;
        },
      ))
