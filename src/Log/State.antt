-- ===== src/Log/State.antt =====
-- The members of the class Log of src/log.cpp and src/log.h, and what it does with its stream.
use tiny_web_server_learning.Prelude.{
  ℕ, ◌+◌, Bool, false, List, [], ◌∷◌, ◌++◌, Option, none, some, if◌then◌else◌,
}
use tiny_web_server_learning.Memory.{Buffer}
use tiny_web_server_learning.CString.Print.{decimal_before, padded}
use tiny_web_server_learning.BlockQueue.{BlockQueue}

-- A local time, with the microseconds of gettimeofday.
pub record Tm : Type 0 where
  pub tm_year : ℕ
  pub tm_mon : ℕ
  pub tm_mday : ℕ
  pub tm_hour : ℕ
  pub tm_min : ℕ
  pub tm_sec : ℕ
  pub tv_usec : ℕ

-- A stream of stdio: the name it was opened by, and the lines put into it that the next flush
-- writes.
pub record File : Type 0 where
  pub name : List ℕ
  pub unwritten : List (List ℕ)

-- The members of the log, and the lines in the files, each with the file's name, in the order in
-- which they were written.
pub record Log : Type 0 where
  pub dir_name : Buffer
  pub log_name : Buffer
  pub split_lines : ℕ
  pub count : ℕ
  pub today : ℕ
  pub fp : Option File
  pub buf : Buffer
  pub log_queue : Option (BlockQueue (List ℕ))
  pub is_async : Bool
  pub close_log : ℕ
  pub disk : List (List ℕ × List ℕ)

-- memset(b, '\0', n) of a new array
abbrev pub zeros : ℕ → Buffer
zeros n = record { size = n; at = λ _. 0 }

-- The instance, as its constructor leaves it.
abbrev pub new_log : Log
new_log = record {
  dir_name = zeros 128;
  log_name = zeros 128;
  split_lines = 0;
  count = 0;
  today = 0;
  fp = none;
  buf = zeros 0;
  log_queue = none;
  is_async = false;
  close_log = 0;
  disk = [];
}

-- "%d_%02d_%02d_"
unfoldable pub date : Tm → List ℕ
date tm =
    decimal_before 10 (tm.tm_year + 1900) []
    ++ (b'_' ∷ (padded 2 (tm.tm_mon + 1) ++ (b'_' ∷ (padded 2 tm.tm_mday ++ b'_' ∷ []))))

-- fopen(name, "a"); `can_open` says whether it gives a stream.
unfoldable pub open_log : (List ℕ → Bool) → List ℕ → Log → Log
open_log can_open name l = record l {
  fp = if can_open name then some (record { name = name; unwritten = [] }) else none;
}
