-- ===== src/SqlConnPool/Tests.antt =====
-- Two threads take a connection, and one gives it back: a witness.
use tiny_web_server_learning.Prelude.{ℕ, suc, refl, [], ◌∷◌, Option, some}
use tiny_web_server_learning.SqlConnPool.{SqlConnPool, init, wait_sem, take_conn}
use tiny_web_server_learning.SqlConnPool.Steps.{
  Users, Steps, start, step, waits, takes, fresh_users, Sound, init-Sound,
}

abbrev empty_pool : SqlConnPool
empty_pool = record { conn_list = []; sem = 0; max_conn = 0; free_count = 0 }

abbrev connect : ℕ → Option ℕ
connect i = some (suc i)

abbrev two_conns : SqlConnPool
two_conns = init connect 2 empty_pool

-- One thread is past GetConn, a second one past its sem_wait.
abbrev lent : Users
lent = record {
  pool = record { conn_list = 2 ∷ []; sem = 0; max_conn = 2; free_count = 2 };
  popping = 1;
  posting = 0;
  held = 1 ∷ [];
  nulls = 0;
}

run : Steps (fresh_users two_conns) lent
unfolding init wait_sem take_conn
run = step (step (step start (waits refl)) (takes 0 refl)) (waits refl)

init-Sound_example : Sound two_conns lent
init-Sound_example = init-Sound connect 2 empty_pool lent refl run
