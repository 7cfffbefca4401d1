-- ===== src/Http/Transfer/Socket.antt =====
-- read_once and write leave the socket alone, and what is on the epoll instance.
use tiny_web_server_learning.Prelude.{
  ℕ, zero, suc, ◌+◌, ◌-◌, ◌≡◌, refl, ap, subst, Bool, true, false, [], ◌∷◌, none, some,
  if◌then◌else◌, leb,
}
use tiny_web_server_learning.Prelude.Int.{ℤ, pos, ◌-ℤ◌, ltb_ℤ}
use tiny_web_server_learning.Memory.{Run, ok, fault, and_then, write_bytes}
use tiny_web_server_learning.Memory.Partial.{Allows, allows, faults}
use tiny_web_server_learning.Http.Types.{HttpConn, FileAddress, no_file, map_failed, mapped}
use tiny_web_server_learning.Http.World.{World}
use tiny_web_server_learning.Http.World.Epoll.{watches}
use tiny_web_server_learning.Http.Conn.{init_parse_state}
use tiny_web_server_learning.Http.Transfer.{
  RecvResult, received, recv_again, recv_failed, Reading, read_round, read_loop, read_once,
  WritevResult, written, writev_again, writev_failed, Writing, unmap, write_done, write_round,
  write_loop, bytes_to_send, is_zero, write,
}

data Reads (c : HttpConn) : Reading → Type 0 where
  no_fuel : Reads c none
  reads : {r : Run (Bool × HttpConn)} → Allows (λ x. x.1.sockfd ≡ c.sockfd) r → Reads c (some r)

module _ (c : HttpConn) where
  Reads-if : {x y : Reading} (b : Bool) → Reads c x → Reads c y → Reads c (if b then x else y)
  Reads-if true p q = p
  Reads-if false p q = q

  Reads-and_then :
      {A : Type 0} (r : Run A) {f : A → Reading}
      → ((a : A) → Reads c (f a))
      → Reads c (and_then r f)
  Reads-and_then (ok a) k = k a
  Reads-and_then fault k = reads faults

  read_round-Reads :
      (again : HttpConn → Reading) (x : RecvResult) (d : HttpConn)
      → ((e : HttpConn) → e.sockfd ≡ c.sockfd → Reads c (again e))
      → d.sockfd ≡ c.sockfd
      → Reads c (read_round again x d)
  unfolding read_round
  read_round-Reads again recv_again d below same = reads (allows same)
  read_round-Reads again recv_failed d below same = reads (allows same)
  read_round-Reads again (received []) d below same = reads (allows same)
  read_round-Reads again (received (x ∷ xs)) d below same =
      Reads-and_then (write_bytes d.read_buf d.read_idx (x ∷ xs)) λ b. below _ same

  read_loop-Reads :
      (n : ℕ) (recv : ℕ → ℕ → RecvResult) (k : ℕ) (d : HttpConn)
      → d.sockfd ≡ c.sockfd
      → Reads c (read_loop n recv k d)
  unfolding read_loop
  read_loop-Reads zero recv k d same = no_fuel
  read_loop-Reads (suc n) recv k d same =
      read_round-Reads (read_loop n recv (suc k)) (recv k (d.read_buf.size - d.read_idx)) d
        (read_loop-Reads n recv (suc k)) same

read_once-Reads : (recv : ℕ → ℕ → RecvResult) (c : HttpConn) → Reads c (read_once recv c)
unfolding read_once
read_once-Reads recv c =
    Reads-if c (leb c.read_buf.size c.read_idx) (reads (allows refl))
      (read_loop-Reads c (c.read_buf.size - c.read_idx + 1) recv 0 c refl)

pub read_once-sockfd :
    (recv : ℕ → ℕ → RecvResult) (c d : HttpConn) (success : Bool)
    → read_once recv c ≡ some (ok (success, d))
    → d.sockfd ≡ c.sockfd
read_once-sockfd recv c d success ran = from (subst (Reads c) ran (read_once-Reads recv c))
  where
    from : Reads c (some (ok (success, d))) → d.sockfd ≡ c.sockfd
    from (reads (allows same)) = same

-- The connection has its socket, and each descriptor is on the instance if it was.
pub record Unmoved (w : World) (c : HttpConn) (v : World) (d : HttpConn) : Type 0 where
  pub socket : d.sockfd ≡ c.sockfd
  pub watched : (fd : ℕ) → watches fd v.epoll ≡ watches fd w.epoll

data Writes (w : World) (c : HttpConn) : Writing → Type 0 where
  no_fuel : Writes w c none
  writes : {x : Bool × HttpConn × World} → Unmoved w c x.2 x.1 → Writes w c (some x)

module _ (w : World) (c : HttpConn) where
  Writes-if :
      {x y : Writing} (b : Bool) → Writes w c x → Writes w c y → Writes w c (if b then x else y)
  Writes-if true p q = p
  Writes-if false p q = q

  unmap-sockfd : (unmap c).sockfd ≡ c.sockfd
  unfolding unmap
  unmap-sockfd = by_file c.file_address refl
    where
      by_file : (a : FileAddress) → c.file_address ≡ a → (unmap c).sockfd ≡ c.sockfd
      by_file no_file e = rw e
      by_file map_failed e = rw e
      by_file (mapped s) e = rw e

  Unmoved-if :
      (x y : Bool × HttpConn × World) (b : Bool)
      → Unmoved w c x.2 x.1
      → Unmoved w c y.2 y.1
      → Writes w c (some (if b then x else y))
  Unmoved-if x y true p q = writes p
  Unmoved-if x y false p q = writes q

  write_done-Writes : (v : World) → v.epoll ≡ w.epoll → Writes w c (some (write_done v c))
  unfolding write_done init_parse_state
  write_done-Writes v same =
      Unmoved-if _ _ (unmap c).linger
        (record { socket = unmap-sockfd; watched = λ fd. ap (watches fd) same })
        (record { socket = unmap-sockfd; watched = λ fd. ap (watches fd) same })

  write_round-Writes :
      (again : ℤ → World → Writing) (x : WritevResult) (left : ℤ) (v : World)
      → ((m : ℤ) (u : World) → u.epoll ≡ w.epoll → Writes w c (again m u))
      → v.epoll ≡ w.epoll
      → Writes w c (write_round again x left v c)
  unfolding write_round
  write_round-Writes again writev_again left v below same =
      writes (record { socket = refl; watched = λ fd. ap (watches fd) same })
  write_round-Writes again writev_failed left v below same =
      writes (record { socket = unmap-sockfd; watched = λ fd. ap (watches fd) same })
  write_round-Writes again (written t) left v below same =
      Writes-if (ltb_ℤ (pos 0) (left -ℤ pos t)) (below (left -ℤ pos t) _ same)
        (write_done-Writes _ same)

  write_loop-Writes :
      (n : ℕ) (writev : ℕ → WritevResult) (k : ℕ) (left : ℤ) (v : World)
      → v.epoll ≡ w.epoll
      → Writes w c (write_loop n writev k left v c)
  unfolding write_loop
  write_loop-Writes zero writev k left v same = no_fuel
  write_loop-Writes (suc n) writev k left v same =
      write_round-Writes (λ m u. write_loop n writev (suc k) m u c) (writev k) left v
        (write_loop-Writes n writev (suc k)) same

  write-Writes : (writev : ℕ → WritevResult) → Writes w c (write writev w c)
  unfolding write init_parse_state
  write-Writes writev =
      Writes-if (is_zero (bytes_to_send c))
        (writes (record { socket = refl; watched = λ fd. refl }))
        (write_loop-Writes (c.write_idx + c.file_stat.st_size + 1) writev 0 (bytes_to_send c) w
          refl)

pub write-Unmoved :
    (writev : ℕ → WritevResult) (w v : World) (c d : HttpConn) (success : Bool)
    → write writev w c ≡ some (success, d, v)
    → Unmoved w c v d
write-Unmoved writev w v c d success ran = from (subst (Writes w c) ran (write-Writes w c writev))
  where
    from : Writes w c (some (success, d, v)) → Unmoved w c v d
    from (writes same) = same
