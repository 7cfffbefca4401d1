-- ===== src/Http/Transfer.antt =====
-- What a connection in src/http_conn.cpp receives and sends: HttpConn::read_once, unmap and write.
-- The calls of recv and writev are answered by functions of their number.
pub mod Receive
pub mod Send
pub mod Socket
use tiny_web_server_learning.Prelude.{
  ℕ, zero, suc, ◌+◌, ◌-◌, ◌≤◌, ◌<◌, Bool, true, false, not, ◌&&◌, List, [], ◌∷◌, ◌++◌, Option, none,
  some, take, leb, if◌then◌else◌, length,
}
use tiny_web_server_learning.Prelude.Int.{ℤ, pos, ◌-ℤ◌, ltb_ℤ}
use tiny_web_server_learning.Memory.{slice, Run, ok, write_bytes, and_then}
use tiny_web_server_learning.CString.{to_int}
use tiny_web_server_learning.Http.Types.{
  HttpConn, IoVec, write_buffer, mapped_file, mapped, no_file,
}
use tiny_web_server_learning.Http.World.{World, epoll_mod_in, epoll_mod_out}
use tiny_web_server_learning.Http.Conn.{init_parse_state, call_epoll}

-- recv: bytes (none at the end of the stream), EAGAIN or EWOULDBLOCK, or another error.
pub data RecvResult : Type 0 where
  received : List ℕ → RecvResult
  recv_again recv_failed : RecvResult

-- `none` if the fuel ran out.
abbrev pub Reading : Type 0
Reading = Option (Run (Bool × HttpConn))

-- A round of read_once on the result of recv; `again` is the next round.
unfoldable pub read_round : (HttpConn → Reading) → RecvResult → HttpConn → Reading
read_round again recv_again c = some (ok (true, c))
read_round again recv_failed c = some (ok (false, c))
read_round again (received []) c = some (ok (false, c))
read_round again (received (x ∷ xs)) c =
    and_then (write_bytes c.read_buf c.read_idx (x ∷ xs))
      λ b. again (record c { read_buf = b; read_idx = c.read_idx + length (x ∷ xs) })

-- The loop of read_once, on fuel; `k` calls were made before.
unfoldable pub read_loop : ℕ → (ℕ → ℕ → RecvResult) → ℕ → HttpConn → Reading
unfolding read_round
read_loop zero recv k c = none
read_loop (suc n) recv k c =
    read_round (read_loop n recv (suc k)) (recv k (c.read_buf.size - c.read_idx)) c

-- Each call but the last takes a byte or more of the room that is left.
unfoldable pub read_once : (ℕ → ℕ → RecvResult) → HttpConn → Reading
unfolding read_loop
read_once recv c =
    if leb c.read_buf.size c.read_idx
    then some (ok (false, c))
    else read_loop (c.read_buf.size - c.read_idx + 1) recv 0 c

unfoldable pub unmap : HttpConn → HttpConn
unmap c = elim c.file_address [ no_file ↦ c | _ ↦ record c { file_address = no_file } ]

-- The bytes of the entries of m_iv, up to the first that are not in memory.
unfoldable pub offered : HttpConn → List IoVec → List ℕ
offered c [] = []
offered c (v ∷ rest) =
    let further = offered c rest in
    elim v.iov_base [
      | write_buffer ↦ slice c.write_buf 0 v.iov_len ++ further
      | mapped_file ↦ elim c.file_address [
        | mapped bytes ↦ take v.iov_len bytes ++ further
        | _ ↦ []
      ]
    ]

-- writev: a number of bytes, EAGAIN, or another error.
pub data WritevResult : Type 0 where
  written : ℕ → WritevResult
  writev_again writev_failed : WritevResult

abbrev pub Writing : Type 0
Writing = Option (Bool × HttpConn × World)

-- All is sent: a connection that stays open starts over.
unfoldable pub write_done : World → HttpConn → Bool × HttpConn × World
unfolding unmap init_parse_state
write_done w c =
    let d = unmap c in
    let v = call_epoll (epoll_mod_in d.sockfd) w in
    if d.linger then (true, init_parse_state d, v) else (false, d, v)

-- A round of write on the result of writev, which is offered m_iv from its start; `again` is the next
-- round.
unfoldable pub write_round : (ℤ → World → Writing) → WritevResult → ℤ → World → HttpConn → Writing
unfolding write_done ◌-ℤ◌ offered
write_round again writev_again bytes_to_send w c =
    some (true, c, call_epoll (epoll_mod_out c.sockfd) w)
write_round again writev_failed bytes_to_send w c = some (false, unmap c, w)
write_round again (written temp) bytes_to_send w c =
    let left = bytes_to_send -ℤ pos temp in
    let v : World = record w { sent = (c.sockfd, take temp (offered c c.iv)) ∷ w.sent } in
    if ltb_ℤ (pos 0) left then again left v else some (write_done v c)

-- The loop of write, on fuel.
unfoldable pub write_loop : ℕ → (ℕ → WritevResult) → ℕ → ℤ → World → HttpConn → Writing
unfolding write_round
write_loop zero writev k bytes_to_send w c = none
write_loop (suc n) writev k bytes_to_send w c =
    write_round (λ left v. write_loop n writev (suc k) left v c) (writev k) bytes_to_send w c

unfoldable pub bytes_to_send : HttpConn → ℤ
bytes_to_send c = to_int (pos (c.write_idx + c.file_stat.st_size))

abbrev pub is_zero : ℤ → Bool
is_zero n = not (ltb_ℤ n (pos 0)) && not (ltb_ℤ (pos 0) n)

-- Enough fuel if every call of writev sends a byte or more.
unfoldable pub write : (ℕ → WritevResult) → World → HttpConn → Writing
unfolding write_loop bytes_to_send
write writev w c =
    if is_zero (bytes_to_send c)
    then some (true, init_parse_state c, call_epoll (epoll_mod_in c.sockfd) w)
    else write_loop (c.write_idx + c.file_stat.st_size + 1) writev 0 (bytes_to_send c) w c
