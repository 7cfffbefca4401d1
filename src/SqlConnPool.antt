-- ===== src/SqlConnPool.antt =====
-- The pool of database connections, src/sql_conn_pool.cpp: connList and the semaphore. A
-- connection is a number. GetConn and FreeConn are not atomic: each is two steps, one on the
-- semaphore and one under the lock, and threads interleave between them.
pub mod Steps
pub mod Scope
mod Tests
use tiny_web_server_learning.Prelude.{
  ℕ, zero, suc, ◌+◌, Bool, List, [], ◌∷◌, ◌++◌, Option, none, some, if◌then◌else◌, length, ◌==◌,
}

pub record SqlConnPool : Type 0 where
  pub conn_list : List ℕ
  pub sem : ℕ
  pub max_conn : ℕ
  pub free_count : ℕ

abbrev add_conn : Option ℕ → SqlConnPool → SqlConnPool
add_conn none p = p
add_conn (some con) p = record p {
  conn_list = p.conn_list ++ con ∷ [];
  free_count = suc p.free_count;
}

-- The loop of init: `connect i` is what mysql_init and mysql_real_connect give in round `i`.
abbrev connect_all : ℕ → (ℕ → Option ℕ) → ℕ → SqlConnPool → SqlConnPool
connect_all zero connect i p = p
connect_all (suc n) connect i p = connect_all n connect (suc i) (add_conn (connect i) p)

unfoldable pub init : (ℕ → Option ℕ) → ℕ → SqlConnPool → SqlConnPool
init connect conn_size p =
    let q = connect_all conn_size connect 0 (record p { max_conn = conn_size; free_count = 0 }) in
    record q { sem = q.free_count; max_conn = q.free_count }

decrement : SqlConnPool → ℕ → Option SqlConnPool
decrement p zero = none
decrement p (suc n) = some (record p { sem = n })

-- sem_wait, where it does not block
unfoldable pub wait_sem : SqlConnPool → Option SqlConnPool
unfolding decrement
wait_sem p = decrement p p.sem

pop_front : SqlConnPool → List ℕ → Option ℕ × SqlConnPool
pop_front p [] = (none, p)
pop_front p (con ∷ rest) = (some con, record p { conn_list = rest })

-- The rest of GetConn, under the lock: a null pointer if connList is empty.
unfoldable pub take_conn : SqlConnPool → Option ℕ × SqlConnPool
unfolding pop_front
take_conn p = pop_front p p.conn_list

-- FreeConn up to the release of the lock
unfoldable pub put_conn : ℕ → SqlConnPool → SqlConnPool
put_conn con p = record p { conn_list = p.conn_list ++ con ∷ [] }

-- sem_post
unfoldable pub post_sem : SqlConnPool → SqlConnPool
post_sem p = record p { sem = suc p.sem }

-- GetConn, where no other thread comes between; `none` where it blocks
unfoldable pub get_conn : SqlConnPool → Option (Option ℕ × SqlConnPool)
unfolding wait_sem take_conn
get_conn p = elim (wait_sem p) [ none ↦ none | some q ↦ some (take_conn q) ]

-- FreeConn
unfoldable pub free_conn : Option ℕ → SqlConnPool → SqlConnPool
unfolding put_conn post_sem
free_conn none p = p
free_conn (some con) p = post_sem (put_conn con p)

-- The life of a SqlConnRAII: a connection is taken, `use` is made of it, and it is given back.
unfoldable pub with_conn {ℓ} :
    {A : Type ℓ} → (Option ℕ → A) → SqlConnPool → Option (A × SqlConnPool)
unfolding get_conn free_conn
with_conn use_it p = elim (get_conn p) [
  | none ↦ none
  | some (con, q) ↦ some (use_it con, free_conn con q)
]

-- ClosePool, with the connections that it closes
unfoldable pub close_pool : SqlConnPool → List ℕ × SqlConnPool
close_pool p = (p.conn_list, record p { conn_list = [] })

-- GetFreeConnCount
unfoldable pub get_free_conn_count : SqlConnPool → ℕ
get_free_conn_count p = length p.conn_list
