-- ===== src/SqlConnPool/Steps.antt =====
-- Threads that take connections from the pool and give them back, in any interleaving.
use tiny_web_server_learning.Prelude.{
  ℕ, zero, suc, ◌+◌, ◌≡◌, refl, ◌∙◌, sym, ap, List, [], ◌∷◌, ◌++◌, Option, none, some, arith,
  if◌then◌else◌, length, length-append, ◌==◌,
}
use tiny_web_server_learning.SqlConnPool.{
  SqlConnPool, add_conn, connect_all, init, decrement, pop_front, wait_sem, take_conn, put_conn,
  post_sem,
}

-- The pool with its users: `popping` threads are past sem_wait and not yet under the lock of
-- GetConn, `posting` ones have left the lock of FreeConn and not yet called sem_post; `held`
-- are the connections that threads have, and `nulls` counts the null pointers that GetConn gave.
pub record Users : Type 0 where
  pub pool : SqlConnPool
  pub popping : ℕ
  pub posting : ℕ
  pub held : List ℕ
  pub nulls : ℕ

abbrev pub hand_out : Users → Option ℕ × SqlConnPool → ℕ → Users
hand_out u (none, p) k = record u { pool = p; popping = k; nulls = suc u.nulls }
hand_out u (some con, p) k = record u { pool = p; popping = k; held = con ∷ u.held }

-- A step of one thread. What a thread gives back is a connection that is held: FreeConn does
-- nothing with a null pointer.
pub data Step (u : Users) : Users → Type 0 where
  waits :
      {p : SqlConnPool}
      → wait_sem u.pool ≡ some p
      → Step u (record u { pool = p; popping = suc u.popping })
  takes : (k : ℕ) → u.popping ≡ suc k → Step u (hand_out u (take_conn u.pool) k)
  puts :
      (before after : List ℕ) (con : ℕ)
      → u.held ≡ before ++ con ∷ after
      → Step u
          (record u { pool = put_conn con u.pool; held = before ++ after; posting = suc u.posting })
  posts : (k : ℕ) → u.posting ≡ suc k → Step u (record u { pool = post_sem u.pool; posting = k })

pub data Steps (u : Users) : Users → Type 0 where
  start : Steps u u
  step : {v w : Users} → Steps u v → Step v w → Steps u w

-- The pool after init, with no users yet.
abbrev pub fresh_users : SqlConnPool → Users
fresh_users p = record { pool = p; popping = 0; posting = 0; held = []; nulls = 0 }

-- How often a connection is in a list.
abbrev pub count : ℕ → List ℕ → ℕ
count x [] = 0
count x (y ∷ s) = (if x == y then 1 else 0) + count x s

count-append : (x : ℕ) (s t : List ℕ) → count x (s ++ t) ≡ count x s + count x t
count-append x [] t = omega arith
count-append x (y ∷ s) t = omega (arith, count-append x s t)

-- The semaphore counts the connections in the list that nobody is on the way to, no connection
-- was made or lost since `p`, and none was missing.
pub record Sound (p : SqlConnPool) (u : Users) : Type 0 where
  pub counted : u.pool.sem + u.popping + u.posting ≡ length u.pool.conn_list
  pub all_there : (x : ℕ) → count x u.pool.conn_list + count x u.held ≡ count x p.conn_list
  pub no_null : u.nulls ≡ 0

decrement-some :
    (q p : SqlConnPool) (n : ℕ)
    → q.sem ≡ n
    → decrement q n ≡ some p
    → (p.conn_list ≡ q.conn_list) × (suc p.sem ≡ q.sem)
unfolding decrement
decrement-some q p zero e h = cc h
decrement-some q p (suc n) e h =
    let same : record q { sem = n } ≡ p = cc in
    (sym (ap (λ r. r.conn_list) same), ap (λ r. suc r.sem) (sym same) ∙ sym e)

pop_front-Sound :
    (p : SqlConnPool) (u : Users) (k : ℕ) (l : List ℕ)
    → u.pool.conn_list ≡ l
    → Sound p u
    → u.popping ≡ suc k
    → Sound p (hand_out u (pop_front u.pool l) k)
unfolding pop_front
pop_front-Sound p u k [] is s e = absurd (omega (arith, s.counted, ap length is, e))
pop_front-Sound p u k (con ∷ rest) is s e = record {
  counted = omega (arith, s.counted, ap length is, e);
  all_there = λ x. omega (arith, s.all_there x, ap (count x) is);
  no_null = s.no_null;
}

-- A step keeps the count.
Step-Sound : (p : SqlConnPool) (u v : Users) → Sound p u → Step u v → Sound p v
unfolding put_conn post_sem wait_sem take_conn
Step-Sound p u v s (waits {p = q} h) =
    let (list, sem) = decrement-some u.pool q u.pool.sem refl h in
    record {
      counted = omega (arith, s.counted, sem, ap length list);
      all_there = λ x. ap (λ l. count x l + count x u.held) list ∙ s.all_there x;
      no_null = s.no_null;
    }
Step-Sound p u v s (takes k e) = pop_front-Sound p u k u.pool.conn_list refl s e
Step-Sound p u v s (puts before after con e) = record {
  counted = omega (arith, s.counted, length-append u.pool.conn_list (con ∷ []));
  all_there = λ x.
      let there = count-append x u.pool.conn_list (con ∷ []) in
      let kept = count-append x before after in
      let given = ap (count x) e ∙ count-append x before (con ∷ after) in
      omega (arith, s.all_there x, there, kept, given);
  no_null = s.no_null;
}
Step-Sound p u v s (posts k e) = record {
  counted = omega (arith, s.counted, e);
  all_there = s.all_there;
  no_null = s.no_null;
}

Steps-Sound : (p : SqlConnPool) (u v : Users) → Sound p u → Steps u v → Sound p v
Steps-Sound p u v s start = s
Steps-Sound p u v s (step {v = m} before last) = Step-Sound p m v (Steps-Sound p u m s before) last

connect_all-counted :
    (n i : ℕ) (connect : ℕ → Option ℕ) (p : SqlConnPool)
    → p.free_count ≡ length p.conn_list
    → (connect_all n connect i p).free_count ≡ length (connect_all n connect i p).conn_list
connect_all-counted zero i connect p e = e
connect_all-counted (suc n) i connect p e =
    connect_all-counted n (suc i) connect (add_conn (connect i) p) (counted (connect i))
  where
    counted : (o : Option ℕ) → (add_conn o p).free_count ≡ length (add_conn o p).conn_list
    counted none = e
    counted (some con) = omega (arith, e, length-append p.conn_list (con ∷ []))

-- However threads interleave after init on an empty list: GetConn has never given a null pointer,
-- the semaphore and the threads on their way count the free connections, and each connection
-- is as often in the list and with the threads, taken together, as it was in the list after
-- init. So no connection that the database gave once is with two threads.
pub init-Sound :
    (connect : ℕ → Option ℕ) (conn_size : ℕ) (p : SqlConnPool) (u : Users)
    → p.conn_list ≡ []
    → Steps (fresh_users (init connect conn_size p)) u
    → Sound (init connect conn_size p) u
unfolding init
init-Sound connect conn_size p u empty run =
    Steps-Sound (init connect conn_size p) (fresh_users (init connect conn_size p)) u
      (record {
        counted = omega (
          arith,
          connect_all-counted conn_size 0 connect
              (record p { max_conn = conn_size; free_count = 0 }) (sym (ap length empty)),
        );
        all_there = λ x. omega arith;
        no_null = refl;
      })
      run
