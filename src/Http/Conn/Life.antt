-- ===== src/Http/Conn/Life.antt =====
-- A connection from init to close_conn.
use tiny_web_server_learning.Prelude.{ℕ, ◌≡◌, refl, ◌∷◌, none, some}
use tiny_web_server_learning.Prelude.Int.{pos, +ℤ_cancel}
use tiny_web_server_learning.Http.Types.{HttpConn}
use tiny_web_server_learning.Http.World.{World, epoll_add, epoll_del}
use tiny_web_server_learning.Http.Conn.{init, init_parse_state, close_conn}

-- init and close_conn balance: after both, the count of users is what it was, the descriptor was
-- added to the epoll instance, taken off it and closed, each once, and a second close_conn
-- does nothing.
pub close_conn-init :
    (w : World) (c : HttpConn) (fd : ℕ)
    → let (d, v) = init w c fd in
      let (e, u) = close_conn v d in
      (u.user_count ≡ w.user_count)
      × (u.closed ≡ fd ∷ w.closed)
      × (u.epoll ≡ epoll_del (some fd) ∷ epoll_add fd ∷ w.epoll)
      × (e.sockfd ≡ none)
      × (close_conn u e ≡ (e, u))
unfolding init close_conn init_parse_state
close_conn-init w c fd = (+ℤ_cancel w.user_count (pos 1), refl, refl, refl, refl)
