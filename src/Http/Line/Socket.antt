-- ===== src/Http/Line/Socket.antt =====
-- parse_line leaves the socket of the connection alone.
use tiny_web_server_learning.Prelude.{ℕ, zero, suc, ◌+◌, ◌-◌, ◌≡◌, refl, ltb, ◌==◌}
use tiny_web_server_learning.Memory.{load, store}
use tiny_web_server_learning.Memory.Partial.{Allows, allows, Allows-any, Allows-if}
use tiny_web_server_learning.Http.Types.{HttpConn, LineStatus}
use tiny_web_server_learning.Http.Line.{after_cr, after_lf, parse_line_loop, parse_line}

abbrev pub Socket : HttpConn → LineStatus × HttpConn → Type 0
Socket c x = x.1.sockfd ≡ c.sockfd

after_cr-Socket : (c d : HttpConn) → d.sockfd ≡ c.sockfd → Allows (Socket c) (after_cr d)
unfolding after_cr
after_cr-Socket c d e = Allows-if (d.checked_idx + 1 == d.read_idx) (allows e) (
    Allows-any (load d.read_buf (d.checked_idx + 1)) λ next.
      Allows-if (next == b'\n')
        (Allows-any (store d.read_buf d.checked_idx 0)
          λ b. Allows-any (store b (d.checked_idx + 1) 0) λ b'. allows e)
        (allows e))

after_lf-Socket : (c d : HttpConn) → d.sockfd ≡ c.sockfd → Allows (Socket c) (after_lf d)
unfolding after_lf
after_lf-Socket c d e =
    Allows-if (ltb 1 d.checked_idx)
      (Allows-any (load d.read_buf (d.checked_idx - 1)) λ before.
        Allows-if (before == b'\r')
          (Allows-any (store d.read_buf (d.checked_idx - 1) 0)
            λ b. Allows-any (store b d.checked_idx 0) λ b'. allows e)
          (allows e))
      (allows e)

parse_line_loop-Socket :
    (n : ℕ) (c d : HttpConn) → d.sockfd ≡ c.sockfd → Allows (Socket c) (parse_line_loop n d)
unfolding parse_line_loop
parse_line_loop-Socket zero c d e = allows e
parse_line_loop-Socket (suc n) c d e = Allows-any (load d.read_buf d.checked_idx) λ temp.
    Allows-if (temp == b'\r') (after_cr-Socket c d e) (
      Allows-if (temp == b'\n') (after_lf-Socket c d e)
        (parse_line_loop-Socket n c (record d { checked_idx = suc d.checked_idx }) e))

pub parse_line-Socket : (c : HttpConn) → Allows (Socket c) (parse_line c)
unfolding parse_line
parse_line-Socket c = parse_line_loop-Socket (c.read_idx - c.checked_idx) c c refl
