-- ===== src/Http/Conn/Settle.antt =====
-- What HttpConn::process of src/http_conn.cpp does with the descriptor of any connection.
use tiny_web_server_learning.Prelude.{
  ℕ, ◌≡◌, refl, sym, ap, subst, ◌∙◌, Bool, true, false, ◌∷◌, Option, none, some, if◌then◌else◌,
}
use tiny_web_server_learning.Memory.{Run, ok}
use tiny_web_server_learning.Memory.Partial.{Allows, allows, Allows-bind, Allows-if}
use tiny_web_server_learning.Http.Types.{HttpConn, HttpCode}
use tiny_web_server_learning.Http.World.{World, System, epoll_mod_in, epoll_mod_out, epoll_del}
use tiny_web_server_learning.Http.Content.{Served}
use tiny_web_server_learning.Http.Reader.{process_read}
use tiny_web_server_learning.Http.Reader.Quiet.{Same, Quiet, quiet, process_read-Quiet}
use tiny_web_server_learning.Http.Conn.{
  call_epoll, close_conn, is_no_request, process, process_answer, serve_result,
}
use tiny_web_server_learning.Http.Conn.Process.{process_write-SameSocket}

-- The connection keeps its descriptor, and one event is asked for; or it had one, which is taken
-- off the epoll instance and closed.
pub data Settled (c : HttpConn) (w : World) : HttpConn → World → Type 0 where
  asks_in :
      {e : HttpConn} {u : World} (fd : Option ℕ)
      → e.sockfd ≡ c.sockfd
      → u.epoll ≡ epoll_mod_in fd ∷ w.epoll
      → Settled c w e u
  asks_out :
      {e : HttpConn} {u : World} (fd : Option ℕ)
      → e.sockfd ≡ c.sockfd
      → u.epoll ≡ epoll_mod_out fd ∷ w.epoll
      → Settled c w e u
  shuts :
      {e : HttpConn} {u : World} (fd : ℕ)
      → c.sockfd ≡ some fd
      → e.sockfd ≡ none
      → u.epoll ≡ epoll_mod_out none ∷ epoll_del (some fd) ∷ w.epoll
      → Settled c w e u

abbrev Settles : HttpConn → World → HttpConn × World → Type 0
Settles c w x = Settled c w x.0 x.1

close_on :
    (c d : HttpConn) (w v : World) (s : Option ℕ)
    → d.sockfd ≡ s
    → d.sockfd ≡ c.sockfd
    → v.epoll ≡ w.epoll
    → let (e, u) = close_conn v d in Settled c w e (call_epoll (epoll_mod_out e.sockfd) u)
unfolding close_conn
close_on c d w v none e same calls =
    rw e (asks_out none (sym e ∙ same) (ap (λ s. epoll_mod_out none ∷ s) calls))
close_on c d w v (some fd) e same calls =
    rw e
      (shuts fd (sym same ∙ e) refl (ap (λ s. epoll_mod_out none ∷ epoll_del (some fd) ∷ s) calls))

-- A run that ended has settled.
pub data Processed (c : HttpConn) (w : World) : Option (Run (HttpConn × World)) → Type 0 where
  no_fuel : Processed c w none
  processed : {r : Run (HttpConn × World)} → Allows (Settles c w) r → Processed c w (some r)

answer-Settles :
    (c d : HttpConn) (w v : World) (code : HttpCode)
    → Same w c v d
    → Allows (Settles c w) (process_answer v d code)
unfolding process_answer
answer-Settles c d w v code s =
    Allows-bind (process_write-SameSocket d code) λ x same. allows (settle x (same ∙ s.socket))
  where
    settle :
        (x : Bool × HttpConn)
        → x.1.sockfd ≡ c.sockfd
        → let (e, u) = if x.0 then (x.1, v) else close_conn v x.1 in
          Settled c w e (call_epoll (epoll_mod_out e.sockfd) u)
    settle (true, f) same =
        asks_out f.sockfd same (ap (λ l. epoll_mod_out f.sockfd ∷ l) s.events.epoll)
    settle (false, f) same = close_on c f w v f.sockfd refl same s.events.epoll

serve_result-Processed :
    (c : HttpConn) (w : World) (r : Option Served) → Quiet w c r → Processed c w (serve_result r)
unfolding serve_result
serve_result-Processed c w none q = no_fuel
serve_result-Processed c w (some r) (quiet a) = processed (
    Allows-bind a λ (code, d, v) s.
      Allows-if (is_no_request code)
        (allows (asks_in d.sockfd s.socket (ap (λ l. epoll_mod_in d.sockfd ∷ l) s.events.epoll)))
        (answer-Settles c d w v code s))

pub process-Processed : (sys : System) (w : World) (c : HttpConn) → Processed c w (process sys w c)
unfolding process
process-Processed sys w c =
    serve_result-Processed c w (process_read sys w c) (process_read-Quiet sys w c)

-- When process has returned, the connection has the descriptor that it had, and one event was asked
-- for; or it had one, and has none.
pub process-Settled :
    (sys : System) (w u : World) (c e : HttpConn)
    → process sys w c ≡ some (ok (e, u))
    → Settled c w e u
process-Settled sys w u c e ran = from (subst (Processed c w) ran (process-Processed sys w c))
  where
    from : Processed c w (some (ok (e, u))) → Settled c w e u
    from (processed (allows s)) = s
