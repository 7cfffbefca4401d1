-- ===== src/Http/Line.antt =====
-- HttpConn::parse_line of src/http_conn.cpp: find the end of the next line and cut it off there.
pub mod Scan
pub mod Resume
pub mod Socket
use tiny_web_server_learning.Prelude.{ℕ, zero, suc, ◌+◌, ◌-◌, if◌then◌else◌, ltb, ◌==◌}
use tiny_web_server_learning.Memory.{Run, ok, ◌>>=◌, load, store}
use tiny_web_server_learning.Http.Types.{HttpConn, LineStatus, line_ok, line_bad, line_open}

-- `\r` at m_checked_idx
after_cr : HttpConn → Run (LineStatus × HttpConn)
after_cr c = if c.checked_idx + 1 == c.read_idx then ok (line_open, c) else do
  next ← load c.read_buf (c.checked_idx + 1)
  if next == b'\n'
      then (do
        b ← store c.read_buf c.checked_idx 0
        b' ← store b (c.checked_idx + 1) 0
        ok (line_ok, record c { read_buf = b'; checked_idx = c.checked_idx + 2 }))
      else ok (line_bad, c)

-- `\n` at m_checked_idx
after_lf : HttpConn → Run (LineStatus × HttpConn)
after_lf c =
    if ltb 1 c.checked_idx
    then (do
      before ← load c.read_buf (c.checked_idx - 1)
      if before == b'\r'
          then (do
            b ← store c.read_buf (c.checked_idx - 1) 0
            b' ← store b c.checked_idx 0
            ok (line_ok, record c { read_buf = b'; checked_idx = c.checked_idx + 1 }))
          else ok (line_bad, c))
    else ok (line_bad, c)

-- The `for` loop, on the number of rounds left, m_read_idx - m_checked_idx.
pub parse_line_loop : ℕ → HttpConn → Run (LineStatus × HttpConn)
unfolding after_cr after_lf
parse_line_loop zero c = ok (line_open, c)
parse_line_loop (suc n) c =
    let next = parse_line_loop n (record c { checked_idx = suc c.checked_idx }) in
    load c.read_buf c.checked_idx >>= λ temp.
    if temp == b'\r' then after_cr c else if temp == b'\n' then after_lf c else next

unfoldable pub parse_line : HttpConn → Run (LineStatus × HttpConn)
unfolding parse_line_loop
parse_line c = parse_line_loop (c.read_idx - c.checked_idx) c
