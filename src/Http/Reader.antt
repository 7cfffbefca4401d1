-- ===== src/Http/Reader.antt =====
-- HttpConn::process_read of src/http_conn.cpp: the state machine that takes a request line by line.
pub mod Total
pub mod Quiet
pub mod Cut
pub mod Block
pub mod Asked
pub mod Whole
pub mod Body
use tiny_web_server_learning.Prelude.{
  ℕ, zero, suc, ◌+◌, ◌-◌, ◌*◌, Bool, true, false, ◌&&◌, Option, none, some, if◌then◌else◌,
}
use tiny_web_server_learning.Memory.{ok, and_then}
use tiny_web_server_learning.Http.Types.{
  HttpConn, HttpCode, no_request, get_request, bad_request, CheckState, check_state_requestline,
  check_state_header, check_state_content, LineStatus, line_ok, line_open,
}
use tiny_web_server_learning.Http.World.{World, System}
use tiny_web_server_learning.Http.Line.{parse_line}
use tiny_web_server_learning.Http.RequestLine.{parse_request_line}
use tiny_web_server_learning.Http.Headers.{parse_headers}
use tiny_web_server_learning.Http.Content.{Served, parse_content}
use tiny_web_server_learning.Http.Request.{do_request}

abbrev pub is_line_ok : LineStatus → Bool
is_line_ok line_ok = true
is_line_ok _ = false

abbrev pub is_content : CheckState → Bool
is_content check_state_content = true
is_content _ = false

abbrev pub is_get_request : HttpCode → Bool
is_get_request get_request = true
is_get_request _ = false

abbrev pub is_bad_request : HttpCode → Bool
is_bad_request bad_request = true
is_bad_request _ = false

-- What the loop returns, or none if the fuel ran out.
abbrev pub Looping : Type 0
Looping = Option Served

-- The `switch`, on the text of the round; `again` is the loop with the line status behind it.
unfoldable pub read_text :
    (World → HttpConn → LineStatus → Looping) → System → World → HttpConn → ℕ → CheckState → Looping
read_text again sys w c text check_state_requestline =
    and_then (parse_request_line c text)
      λ (ret, d). if is_bad_request ret then some (ok (bad_request, d, w)) else again w d line_ok
read_text again sys w c text check_state_header =
    and_then (parse_headers c text)
      λ (ret, d). if is_get_request ret then some (do_request sys w d) else again w d line_ok
read_text again sys w c text check_state_content =
    and_then (parse_content sys w c text) λ (ret, d, w').
      if is_get_request ret then some (do_request sys w' d) else again w' d line_open

-- text = m_read_buf + m_start_line; m_start_line = m_checked_idx
unfoldable pub read_round :
    (World → HttpConn → LineStatus → Looping) → System → World → HttpConn → Looping
read_round again sys w c =
    read_text again sys w (record c { start_line = c.checked_idx }) c.start_line c.check_state

-- The `while` loop, on fuel; the last argument is line_status.
pub read_loop : ℕ → System → World → HttpConn → LineStatus → Looping
read_loop zero sys w c status = none
read_loop (suc n) sys w c status =
    if is_content c.check_state && is_line_ok status
    then read_round (read_loop n sys) sys w c
    else and_then (parse_line c) λ (line, d).
      if is_line_ok line then read_round (read_loop n sys) sys w d else some (ok (no_request, d, w))

-- Each round that scans a line takes a byte or more off what is left, and between two of them there
-- is at most one that does not.
unfoldable pub process_read : System → World → HttpConn → Looping
unfolding read_loop read_round read_text
process_read sys w c = read_loop (2 * (c.read_idx - c.checked_idx) + 2) sys w c line_ok
