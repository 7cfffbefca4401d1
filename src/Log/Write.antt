-- ===== src/Log/Write.antt =====
-- Log::write_log and Log::flush of src/log.cpp, and the macros and the writer of src/log.h.
use tiny_web_server_learning.Prelude.{
  ℕ, suc, ◌+◌, ◌-◌, ◌/◌, ◌%◌, Bool, false, not, List, [], ◌∷◌, ◌++◌, map, Option, none, some, ◌==◌,
  if◌then◌else◌, length, take, codes,
}
use tiny_web_server_learning.Memory.{Run, ok, fault, ◌>>=◌, Buffer, store, c_string}
use tiny_web_server_learning.CString.Print.{decimal_before, padded, print_at}
use tiny_web_server_learning.BlockQueue.{BlockQueue, Popped, refused, full, push, pop}
use tiny_web_server_learning.Log.State.{Tm, File, Log, date, open_log}
use tiny_web_server_learning.Log.Open.{is_open}

-- the lines of a stream, with its name
abbrev pub on_disk : File → List (List ℕ × List ℕ)
on_disk f = map (λ line. (f.name, line)) f.unwritten

-- fflush; a null pointer flushes every stream, and there is no other
unfoldable pub flush_file : Option File → Log → Log
flush_file none l = l
flush_file (some f) l = record l {
  fp = some (record f { unwritten = [] });
  disk = l.disk ++ on_disk f;
}

unfoldable pub flush : Log → Log
unfolding flush_file
flush l = flush_file l.fp l

-- fclose of the stream; the pointer dangles until it is set anew
unfoldable pub close_file : Option File → Log → Run Log
close_file none l = fault
close_file (some f) l = ok (record l { disk = l.disk ++ on_disk f })

-- the destructor
unfoldable pub destroy : Log → Run Log
unfolding close_file
destroy l = if is_open l.fp then close_file l.fp l else ok l

-- fputs
unfoldable pub put_line : Option File → List ℕ → Log → Run Log
put_line none line l = fault
put_line (some f) line l =
    ok (record l { fp = some (record f { unwritten = f.unwritten ++ line ∷ [] }) })

-- The name of the new file: that of a new day, or that of the next part of the day.
unfoldable pub new_log_name : Tm → Log → Run (List ℕ × Log)
unfolding date
new_log_name tm l = do
  dir ← c_string l.dir_name 0
  name ← c_string l.log_name 0
  let whole = dir ++ (take 15 (date tm) ++ name)
  if l.today == tm.tm_mday
      then ok (take 254 (whole ++ (b'.' ∷ decimal_before 20 (l.count / l.split_lines) [])), l)
      else ok (take 254 whole, record l { today = tm.tm_mday; count = 0 })

-- the new file in place of the old one
unfoldable pub next_file : (List ℕ → Bool) → Tm → Log → Run Log
unfolding flush close_file new_log_name open_log
next_file can_open tm l = do
  let flushed = flush l
  closed ← close_file flushed.fp flushed
  (name, named) ← new_log_name tm closed
  ok (open_log can_open name named)

-- `m_count % m_split_lines == 0` is a division by zero where there is no split.
unfoldable pub splits_here : Log → Run Bool
splits_here l = if l.split_lines == 0 then fault else ok (l.count % l.split_lines == 0)

-- write_log, the first part that holds the lock: the count, and a new file where one is due
unfoldable pub rotate : (List ℕ → Bool) → Tm → Log → Run Log
unfolding splits_here next_file
rotate can_open tm old =
    let l = record old { count = suc old.count } in
    if not (l.today == tm.tm_mday)
    then next_file can_open tm l
    else (do due ← splits_here l; if due then next_file can_open tm l else ok l)

unfoldable pub level_name : ℕ → List ℕ
level_name level =
    if level == 0
    then codes "[debug]:"
    else if level == 2
    then codes "[warn]:"
    else if level == 3
    then codes "[error]:"
    else codes "[info]:"

-- "%d-%02d-%02d %02d:%02d:%02d.%06ld %s "
unfoldable pub stamp : Tm → ℕ → List ℕ
unfolding level_name
stamp tm level =
    decimal_before 10 (tm.tm_year + 1900) []
    ++ (b'-'
        ∷ (padded 2 (tm.tm_mon + 1)
            ++ (b'-'
                ∷ (padded 2 tm.tm_mday
                    ++ (b' '
                        ∷ (padded 2 tm.tm_hour
                            ++ (b':'
                                ∷ (padded 2 tm.tm_min
                                    ++ (b':'
                                        ∷ (padded 2 tm.tm_sec
                                            ++ (b'.'
                                                ∷ (padded 6 tm.tv_usec
                                                    ++ (b' '
                                                        ∷ (level_name level
                                                            ++ b' ' ∷ []))))))))))))))

-- The two prints into the buffer, the newline and the NUL, and the copy of the string.
unfoldable pub print_line : Buffer → List ℕ → List ℕ → Run (List ℕ × Buffer)
print_line b s text = do
  let n = length s
  let m = length text
  b1 ← print_at b 0 48 s
  b2 ← print_at b1 n (b1.size - 1) text
  b3 ← store b2 (n + m) b'\n'
  b4 ← store b3 (n + m + 1) 0
  line ← c_string b4 0
  ok (line, b4)

-- The second part: the line is put together in the buffer, and copied. `text` is what the format
-- and the arguments print.
unfoldable pub format_line : Tm → ℕ → List ℕ → Log → Run (List ℕ × Log)
unfolding stamp print_line
format_line tm level text l = do
  (line, b) ← print_line l.buf (stamp tm level) text
  ok (line, record l { buf = b })

-- `m_is_async && !m_log_queue->full()`
unfoldable pub has_room : Log → Run Bool
has_room l =
    if l.is_async
    then (elim l.log_queue [ none ↦ fault | some q ↦ ok (not (full q)) ])
    else ok false

-- push; its result is not looked at
unfoldable pub push_line : Option (BlockQueue (List ℕ)) → List ℕ → Log → Run Log
push_line none line l = fault
push_line (some q) line l = ok (record l { log_queue = some (push line q).1 })

unfoldable pub enqueue_line : List ℕ → Log → Run Log
unfolding push_line
enqueue_line line l = push_line l.log_queue line l

-- The last part: to the queue, or into the file.
unfoldable pub deliver : List ℕ → Log → Run Log
unfolding has_room enqueue_line put_line
deliver line l = do room ← has_room l; if room then enqueue_line line l else put_line l.fp line l

-- write_log, where no other thread comes between its parts
unfoldable pub write_log : (List ℕ → Bool) → Tm → ℕ → List ℕ → Log → Run Log
unfolding rotate format_line deliver
write_log can_open tm level text l = do
  rotated ← rotate can_open tm l
  (line, formatted) ← format_line tm level text rotated
  deliver line formatted

-- LOG_DEBUG, LOG_INFO, LOG_WARN and LOG_ERROR are the levels 0 to 3 of this.
unfoldable pub log_at : (List ℕ → Bool) → Tm → ℕ → List ℕ → Log → Run Log
unfolding write_log flush
log_at can_open tm level text l =
    if l.close_log == 0
    then (do written ← write_log can_open tm level text l; ok (flush written))
    else ok l

-- A round of async_write_log up to the lock: it waits, or it ends, or it has a line to put into the
-- file.
unfoldable pub take_line : Option (BlockQueue (List ℕ)) → Popped (List ℕ)
take_line none = refused
take_line (some q) = pop q
