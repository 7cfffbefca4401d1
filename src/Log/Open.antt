-- ===== src/Log/Open.antt =====
-- Log::init of src/log.cpp.
use tiny_web_server_learning.Prelude.{
  ℕ, zero, suc, Bool, true, false, List, ◌++◌, Option, none, some, take, drop,
}
use tiny_web_server_learning.Memory.{Run, ok, ◌>>=◌, write_bytes, strcpy, c_string}
use tiny_web_server_learning.CString.{strrchr}
use tiny_web_server_learning.BlockQueue.{make_queue}
use tiny_web_server_learning.Log.State.{Tm, File, Log, zeros, date, open_log}

-- init where there is no slash: the names stay as they are
unfoldable pub plain_name : Tm → List ℕ → Log → Run (List ℕ × Log)
plain_name tm file_name l = ok (take 254 (date tm ++ file_name), l)

-- and where there is one, at `p`: log_name is what follows it, dir_name the rest
unfoldable pub split_name : Tm → List ℕ → ℕ → Log → Run (List ℕ × Log)
split_name tm file_name p l = do
  log_name ← strcpy l.log_name 0 (drop (suc p) file_name)
  dir_name ← write_bytes l.dir_name 0 (take (suc p) file_name)
  dir ← c_string dir_name 0
  name ← c_string log_name 0
  ok (take 254 (dir ++ (date tm ++ name)), record l { log_name = log_name; dir_name = dir_name })

unfoldable pub name_by : Option ℕ → Tm → List ℕ → Log → Run (List ℕ × Log)
unfolding plain_name split_name
name_by none tm file_name l = plain_name tm file_name l
name_by (some p) tm file_name l = split_name tm file_name p l

unfoldable pub log_full_name : Tm → List ℕ → Log → Run (List ℕ × Log)
unfolding name_by
log_full_name tm file_name l = name_by (strrchr file_name b'/') tm file_name l

abbrev pub is_open : Option File → Bool
is_open none = false
is_open (some f) = true

-- init, the queue and its thread: there is none where `max_queue_size >= 1` does not hold
unfoldable pub start_queue : ℕ → Log → Log
start_queue zero l = l
start_queue (suc n) l = record l { is_async = true; log_queue = make_queue (suc n) }

-- init; `tm` is the local time
unfoldable pub init : (List ℕ → Bool) → Tm → List ℕ → ℕ → ℕ → ℕ → ℕ → Log → Run (Bool × Log)
unfolding start_queue log_full_name open_log
init can_open tm file_name close_log log_buf_size split_lines max_queue_size l = do
  (name, named) ← log_full_name tm file_name (record (start_queue max_queue_size l) {
    close_log = close_log;
    buf = zeros log_buf_size;
    split_lines = split_lines;
  })
  let opened = open_log can_open name (record named { today = tm.tm_mday })
  ok (is_open opened.fp, opened)
