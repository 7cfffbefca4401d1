-- ===== src/Log/Tests.antt =====
-- Runs of the log on small inputs.
use tiny_web_server_learning.Prelude.{
  ℕ, ◌+◌, ◌≡◌, refl, Bool, true, false, List, [], ◌∷◌, ◌++◌, some, arith, codes, map,
}
use tiny_web_server_learning.Memory.{Run, ok, fault, ◌>>=◌, Returns, store, write_bytes, c_string}
use tiny_web_server_learning.Memory.Strings.{written}
use tiny_web_server_learning.CString.{contains}
use tiny_web_server_learning.CString.Print.{decimal_before, padded, print_at}
use tiny_web_server_learning.BlockQueue.{BlockQueue, push, full}
use tiny_web_server_learning.Log.State.{Tm, Log, new_log, zeros, date}
use tiny_web_server_learning.Log.Write.{
  stamp, level_name, print_line, format_line, log_at, has_room, push_line, enqueue_line,
}
use tiny_web_server_learning.Log.Open.{init}
use tiny_web_server_learning.Log.Stamp.{IsTime, clean_by, line_of}
use tiny_web_server_learning.Log.Format.{Formatted, format_line-Formatted}
use tiny_web_server_learning.Log.Rotate.{file_after}
use tiny_web_server_learning.Log.Files.{Logged, log_at-Logged}
use tiny_web_server_learning.Log.Start.{IsString-over_zeros}
use tiny_web_server_learning.Log.Calls.{Call, call_line, lines, log_calls, init-log_calls}
use tiny_web_server_learning.Log.Threads.{
  Threads, fresh_threads, formats, chooses, pushes, Steps, start, step, how_many, stored, under_way,
}
use tiny_web_server_learning.Log.Account.{Steps-stored}

abbrev noon : Tm
noon = record {
  tm_year = 126;
  tm_mon = 0;
  tm_mday = 5;
  tm_hour = 12;
  tm_min = 0;
  tm_sec = 7;
  tv_usec = 42;
}

abbrev next_noon : Tm
next_noon = record noon { tm_mday = 6 }

noon-IsTime : IsTime noon
noon-IsTime = record {
  year = omega arith;
  month = omega arith;
  day = omega arith;
  hour = omega arith;
  minute = omega arith;
  second = omega arith;
  usec = omega arith;
}

next_noon-IsTime : IsTime next_noon
next_noon-IsTime = record {
  year = omega arith;
  month = omega arith;
  day = omega arith;
  hour = omega arith;
  minute = omega arith;
  second = omega arith;
  usec = omega arith;
}

date_test : date noon ≡ codes "2026_01_05_"
unfolding date decimal_before padded
date_test = refl

line_test : line_of noon 2 (codes "hi") ≡ codes "2026-01-05 12:00:07.000042 [warn]: hi" ++ 10 ∷ []
unfolding line_of stamp decimal_before padded level_name
line_test = refl

abbrev small_log : Log
small_log = record new_log { buf = zeros 60; split_lines = 2; today = 5 }

format_line-Formatted_example :
    Formatted (line_of noon 1 (codes "hi")) 60 (format_line noon 1 (codes "hi") small_log)
unfolding contains
format_line-Formatted_example =
    format_line-Formatted noon 1 (codes "hi") small_log noon-IsTime (clean_by (codes "hi") refl)

-- A buffer that has room for the stamp and not for the text.
overrun_test :
    format_line noon 1 (codes "a text that is too long") (record small_log { buf = zeros 40 })
    ≡ fault
unfolding format_line print_line stamp decimal_before padded level_name print_at write_bytes store
overrun_test = refl

abbrev open_file : Log
open_file = record small_log {
  dir_name = written (zeros 128) 0 (codes "./log/");
  log_name = written (zeros 128) 0 (codes "S");
  fp = some (record { name = codes "a"; unwritten = [] });
}

abbrev always : List ℕ → Bool
always p = true

log_at-Logged_example :
    Returns
      (Logged
        (codes "./log/")
        (codes "S")
        (file_after (codes "./log/") (codes "S") noon (codes "a") open_file)
        noon
        (line_of noon 1 (codes "hi"))
        open_file)
      (log_at always noon 1 (codes "hi") open_file)
unfolding contains line_of stamp decimal_before padded level_name
log_at-Logged_example =
    log_at-Logged always (λ p. refl) (codes "./log/") (codes "S") (codes "a") noon 1 (codes "hi")
      open_file
      (record {
        dir_is =
            IsString-over_zeros 128 (codes "./log/") (clean_by (codes "./log/") refl) (omega arith);
        log_is = IsString-over_zeros 128 (codes "S") (clean_by (codes "S") refl) (omega arith);
        splits = omega arith;
        opened = refl;
      })
      refl refl noon-IsTime (clean_by (codes "hi") refl) (omega arith)

abbrev two_calls : List Call
two_calls =
    record { tm = noon; level = 1; text = codes "a" }
    ∷ (record { tm = next_noon; level = 3; text = codes "b" } ∷ [])

init-log_calls_example :
    Returns
      (λ l. lines l ≡ map call_line two_calls)
      (init always noon (codes "./log" ++ b'/' ∷ codes "S") 0 60 2 0 new_log >>= λ (opened, l).
        log_calls always two_calls l)
unfolding contains line_of stamp decimal_before padded level_name
init-log_calls_example =
    init-log_calls always noon (codes "./log") (codes "S") 60 2 two_calls (λ p. refl) refl
      (clean_by (codes "S") refl) (omega arith) (clean_by (codes "./log/") refl) (omega arith)
      (omega arith)
      (
        record { time = noon-IsTime; clean = clean_by (codes "a") refl; room = omega arith },
        (
          record { time = next_noon-IsTime; clean = clean_by (codes "b") refl; room = omega arith },
          tt,
        ),
      )

-- Two threads that both find room in a queue for one line: the second line is lost.
abbrev one_place : Log
one_place = record small_log {
  is_async = true;
  log_queue = some (record { queue = []; max_size = 1; is_close = false });
}

abbrev log_of : Run (List ℕ × Log) → Log
log_of (ok (line, l)) = l
log_of fault = new_log

abbrev line_a : List ℕ
line_a = line_of noon 1 (codes "a")

abbrev line_b : List ℕ
line_b = line_of noon 1 (codes "b")

abbrev with_a : Log
with_a = log_of (format_line noon 1 (codes "a") one_place)

abbrev with_b : Log
with_b = log_of (format_line noon 1 (codes "b") with_a)

abbrev queue_a : BlockQueue (List ℕ)
queue_a = record { queue = line_a ∷ []; max_size = 1; is_close = false }

abbrev raced : Threads
raced = record (fresh_threads (record with_b { log_queue = some queue_a })) {
  formatted = line_b ∷ (line_a ∷ []);
  lost = line_b ∷ [];
}

race : Steps always (fresh_threads one_place) raced
unfolding format_line print_line line_of stamp decimal_before padded level_name print_at write_bytes
    store c_string has_room push_line enqueue_line push full
race =
    step
      (step
        (step
          (step
            (step (step start (formats noon 1 (codes "a") refl)) (formats noon 1 (codes "b") refl))
            (chooses (line_b ∷ []) [] line_a refl refl))
          (chooses [] [] line_b refl refl))
        (pushes (line_b ∷ []) [] line_a (record { queue = []; max_size = 1; is_close = false }) refl
          refl refl))
      (pushes [] [] line_b queue_a refl refl refl)

Steps-stored_example :
    how_many (λ line. true) raced.formatted + stored (λ line. true) one_place
    ≡ stored (λ line. true) raced.log
      + under_way (λ line. true) raced
      + how_many (λ line. true) raced.lost
Steps-stored_example = Steps-stored always one_place raced (λ line. true) race
