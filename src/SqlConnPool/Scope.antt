-- ===== src/SqlConnPool/Scope.antt =====
-- The scope of a SqlConnRAII, src/sql_conn_pool.cpp.
use tiny_web_server_learning.Prelude.{ℕ, suc, ◌≡◌, List, [], ◌∷◌, ◌++◌, Option, some}
use tiny_web_server_learning.SqlConnPool.{
  SqlConnPool, decrement, wait_sem, pop_front, take_conn, put_conn, post_sem, get_conn, free_conn,
  with_conn,
}

-- The first connection of the list is used and goes to its end; the count is as before.
pub with_conn_lem {ℓ} :
    {A : Type ℓ} (use_it : Option ℕ → A) (p : SqlConnPool) (con n : ℕ) (rest : List ℕ)
    → p.sem ≡ suc n
    → p.conn_list ≡ con ∷ rest
    → with_conn use_it p
      ≡ some (use_it (some con), record p { conn_list = rest ++ con ∷ []; sem = suc n })
unfolding with_conn get_conn free_conn wait_sem decrement take_conn pop_front put_conn post_sem
with_conn_lem use_it p con n rest free list = rw (free, list)
