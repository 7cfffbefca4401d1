-- ===== src/Http/Reader/Quiet.antt =====
-- process_read leaves the socket alone, and what the server does with descriptors.
use tiny_web_server_learning.Prelude.{
  ℕ, zero, suc, ◌+◌, ◌-◌, ◌*◌, ◌≡◌, Bool, true, false, ◌&&◌, none, some, arith, if◌then◌else◌,
}
use tiny_web_server_learning.Memory.{Run, and_then}
use tiny_web_server_learning.Memory.Partial.{Allows, allows, faults, Allows-map}
use tiny_web_server_learning.Http.Types.{
  HttpConn, CheckState, check_state_requestline, check_state_header, check_state_content,
  LineStatus, line_ok, line_open,
}
use tiny_web_server_learning.Http.World.{World, System}
use tiny_web_server_learning.Http.Line.Socket.{Socket, parse_line-Socket}
use tiny_web_server_learning.Http.Content.{Served}
use tiny_web_server_learning.Http.Request.{do_request}
use tiny_web_server_learning.Http.Bounds.{
  Keeps, SameEvents, parse_request_line-Keeps, parse_headers-Keeps,
}
use tiny_web_server_learning.Http.Bounds.Content.{ServedKeeps, parse_content-Keeps}
use tiny_web_server_learning.Http.Bounds.Request.{do_request-Keeps}
use tiny_web_server_learning.Http.Reader.{
  Looping, is_line_ok, is_content, is_bad_request, is_get_request, read_text, read_round, read_loop,
  process_read,
}

-- The socket, the calls and the count are those of `w` and `c`.
pub record Same (w : World) (c : HttpConn) (v : World) (d : HttpConn) : Type 0 where
  pub socket : d.sockfd ≡ c.sockfd
  pub events : SameEvents w v

pub data Quiet (w : World) (c : HttpConn) : Looping → Type 0 where
  no_fuel : Quiet w c none
  quiet : {r : Served} → Allows (λ (code, d, v). Same w c v d) r → Quiet w c (some r)

module _ (w : World) (c : HttpConn) where
  Quiet-and_then :
      {A : Type 0} (P : A → Type 0) {r : Run A} {f : A → Looping}
      → Allows P r
      → ((a : A) → P a → Quiet w c (f a))
      → Quiet w c (and_then r f)
  Quiet-and_then P (allows p) k = k _ p
  Quiet-and_then P faults k = quiet faults

  Quiet-if : {x y : Looping} (b : Bool) → Quiet w c x → Quiet w c y → Quiet w c (if b then x else y)
  Quiet-if true p q = p
  Quiet-if false p q = q

module _ (sys : System) (w : World) (c : HttpConn) where
  abbrev Below : (World → HttpConn → LineStatus → Looping) → Type 0
  Below again =
      (v : World) (d : HttpConn) (status : LineStatus) → Same w c v d → Quiet w c (again v d status)

  do_request-Quiet :
      (v : World) (d : HttpConn) → Same w c v d → Quiet w c (some (do_request sys v d))
  do_request-Quiet v d s =
      quiet (Allows-map (do_request-Keeps sys v d) λ (code, e, u) t. ground arith)

  read_text-Quiet :
      (again : World → HttpConn → LineStatus → Looping) (v : World) (d : HttpConn) (text : ℕ)
      (state : CheckState)
      → Below again
      → Same w c v d
      → Quiet w c (read_text again sys v d text state)
  unfolding read_text
  read_text-Quiet again v d text check_state_requestline below s =
      Quiet-and_then w c (Keeps d) (parse_request_line-Keeps d text) λ (ret, e) k.
        Quiet-if w c (is_bad_request ret) (quiet (allows (ground arith)))
          (below v e line_ok (ground arith))
  read_text-Quiet again v d text check_state_header below s =
      Quiet-and_then w c (Keeps d) (parse_headers-Keeps d text) λ (ret, e) k.
        Quiet-if w c (is_get_request ret) (do_request-Quiet v e (ground arith))
          (below v e line_ok (ground arith))
  read_text-Quiet again v d text check_state_content below s =
      Quiet-and_then w c (ServedKeeps v d) (parse_content-Keeps sys v d text) λ (ret, e, u) k.
        Quiet-if w c (is_get_request ret) (do_request-Quiet u e (ground arith))
          (below u e line_open (ground arith))

  read_round-Quiet :
      (again : World → HttpConn → LineStatus → Looping) (v : World) (d : HttpConn)
      → Below again
      → Same w c v d
      → Quiet w c (read_round again sys v d)
  unfolding read_round
  read_round-Quiet again v d below s =
      read_text-Quiet again v (record d { start_line = d.checked_idx }) d.start_line d.check_state
        below (ground arith)

  read_loop-Quiet : (n : ℕ) → Below (read_loop n sys)
  unfolding read_loop
  read_loop-Quiet zero v d status s = no_fuel
  read_loop-Quiet (suc n) v d status s =
      Quiet-if w c (is_content d.check_state && is_line_ok status)
        (read_round-Quiet (read_loop n sys) v d (read_loop-Quiet n) s)
        (Quiet-and_then w c (Socket d) (parse_line-Socket d) λ (line, e) k.
          Quiet-if w c (is_line_ok line)
            (read_round-Quiet (read_loop n sys) v e (read_loop-Quiet n) (ground arith))
            (quiet (allows (ground arith))))

pub process_read-Quiet :
    (sys : System) (w : World) (c : HttpConn) → Quiet w c (process_read sys w c)
unfolding process_read
process_read-Quiet sys w c =
    read_loop-Quiet sys w c (2 * (c.read_idx - c.checked_idx) + 2) w c line_ok (ground arith)
