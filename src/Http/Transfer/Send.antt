-- ===== src/Http/Transfer/Send.antt =====
-- write sends the answer, and what of it goes out.
use tiny_web_server_learning.Prelude.{
  take, subst, List, [], ◌∷◌, ◌++◌, Option, ℕ, zero, suc, ◌+◌, ◌-◌, ◌^◌, ◌≤◌, ◌<◌, ◌≡◌, refl, true,
  false, some, arith, ltb, Bool-cases, inl, inr, ltb→lt,
}
use tiny_web_server_learning.Prelude.Int.{ℤ, pos, ◌-ℤ◌, ltb_ℤ}
use tiny_web_server_learning.CString.Laws.{to_int-pos}
use tiny_web_server_learning.Http.Types.{HttpConn}
use tiny_web_server_learning.Http.World.{World, epoll_mod_in, epoll_mod_out}
use tiny_web_server_learning.Http.Conn.{init_parse_state, call_epoll}
use tiny_web_server_learning.Http.Transfer.{
  WritevResult, written, writev_again, writev_failed, offered, Writing, unmap, write_done,
  write_round, write_loop, bytes_to_send, is_zero, write,
}

-- A call of writev that does not fail sends a byte or more.
abbrev pub Progress : (ℕ → WritevResult) → Type 0
Progress writev = (k n : ℕ) → writev k ≡ written n → 0 < n

abbrev pub count : WritevResult → ℕ
count (written n) = n
count _ = 0

-- The bytes that the first `k` calls have sent.
abbrev pub sent : (ℕ → WritevResult) → ℕ → ℕ
sent writev zero = 0
sent writev (suc k) = sent writev k + count (writev k)

abbrev pub total : HttpConn → ℕ
total c = c.write_idx + c.file_stat.st_size

-- What these calls have handed to the socket, newest first: each the first bytes of the whole answer,
-- since m_iv is not moved on.
abbrev pub pieces : (ℕ → WritevResult) → HttpConn → ℕ → List (Option ℕ × List ℕ)
pieces writev c zero = []
pieces writev c (suc k) = (c.sockfd, take (count (writev k)) (offered c c.iv)) ∷ pieces writev c k

abbrev pub world_after : (ℕ → WritevResult) → World → HttpConn → ℕ → World
world_after writev w c k = record w { sent = pieces writev c k ++ w.sent }

-- How write ends.
pub data Wrote (writev : ℕ → WritevResult) (w : World) (c : HttpConn) : Writing → Type 0 where
  idle :
      total c ≡ 0
      → Wrote writev w c (some (true, init_parse_state c, call_epoll (epoll_mod_in c.sockfd) w))
  finished :
      (k : ℕ)
      → sent writev k < total c
      → total c ≤ sent writev (suc k)
      → Wrote writev w c (some (write_done (world_after writev w c (suc k)) c))
  blocked :
      (k : ℕ)
      → sent writev k < total c
      → writev k ≡ writev_again
      → Wrote writev w c
          (some (true, c, call_epoll (epoll_mod_out c.sockfd) (world_after writev w c k)))
  failed :
      (k : ℕ)
      → sent writev k < total c
      → writev k ≡ writev_failed
      → Wrote writev w c (some (false, unmap c, world_after writev w c k))

sub_pos : (m t : ℕ) → t ≤ m → pos m -ℤ pos t ≡ pos (m - t)
unfolding ◌-ℤ◌
sub_pos m t h = ground arith

above_zero : (n : ℕ) → 0 < n → ltb_ℤ (pos 0) (pos n) ≡ true
above_zero n h = ground arith

not_zero : (n : ℕ) → 0 < n → is_zero (pos n) ≡ false
not_zero n h = ground arith

none_left : (m t : ℕ) → m ≤ t → ltb_ℤ (pos 0) (pos m -ℤ pos t) ≡ false
unfolding ◌-ℤ◌
none_left m t h = ground arith

module _ (writev : ℕ → WritevResult) (progress : Progress writev) (w : World) (c : HttpConn) where
  -- The loop from call `k` on, with `m` bytes left.
  abbrev Below : ℕ → ℕ → (ℤ → World → Writing) → Type 0
  Below n k again =
      (m : ℕ)
      → 0 < m
      → m + sent writev k ≡ total c
      → m < n
      → Wrote writev w c (again (pos m) (world_after writev w c k))

  write_round-Wrote :
      (n k : ℕ) (again : ℤ → World → Writing) (x : WritevResult)
      → writev k ≡ x
      → Below n (suc k) again
      → (m : ℕ) → 0 < m
      → m + sent writev k ≡ total c
      → m < suc n
      → Wrote writev w c (write_round again x (pos m) (world_after writev w c k) c)
  unfolding write_round
  write_round-Wrote n k again writev_again is below m some_left sum few = blocked k (omega arith) is
  write_round-Wrote n k again writev_failed is below m some_left sum few = failed k (omega arith) is
  write_round-Wrote n k again (written t) is below m some_left sum few =
      let moves = progress k t is in
      let after : sent writev (suc k) ≡ sent writev k + t = rw is refl in
      let carried : world_after writev w c (suc k) ≡ record w {
        sent = (c.sockfd, take t (offered c c.iv)) ∷ (pieces writev c k ++ w.sent);
      } =
        rw is refl in
      elim (Bool-cases (ltb t m)) [
        | inl more ↦
            let less : t < m = ltb→lt t m more in
            rw (sub_pos m t (omega arith), above_zero (m - t) (omega arith))
              (rw⁻¹ carried (below (m - t) (omega arith) (omega (arith, after)) (omega arith)))
        | inr done ↦
            let enough : m ≤ t = ground (arith, done) in
            rw (none_left m t enough) (
              subst (λ x. Wrote writev w c (some (write_done x c))) carried
                (finished k (omega arith) (omega (arith, after))))
      ]

  write_loop-Wrote : (n k : ℕ) → Below n k (λ left v. write_loop n writev k left v c)
  unfolding write_loop
  write_loop-Wrote zero k m some_left sum few = absurd (omega arith)
  write_loop-Wrote (suc n) k m some_left sum few =
      write_round-Wrote n k (λ left v. write_loop n writev (suc k) left v c) (writev k) refl
        (write_loop-Wrote n (suc k)) m some_left sum few

-- Where each call of writev that does not fail sends a byte or more, and an int holds the size of the
-- answer, write ends in one of four ways: there is nothing to send; the counts that writev has
-- returned add up to that size with the last call, and not before, and only then is the answer done
-- with; or a call before that would block, and the write event is asked for; or it fails, and the
-- file is unmapped. What each call has handed to the socket is the beginning of what m_iv holds, of
-- the length that it returned, or all of it if that is less: a second call sends the first bytes
-- again.
pub write-Wrote :
    (writev : ℕ → WritevResult) (w : World) (c : HttpConn)
    → Progress writev
    → total c < 2 ^ 31
    → Wrote writev w c (write writev w c)
unfolding write bytes_to_send
write-Wrote writev w c progress small = elim (Bool-cases (ltb 0 (total c))) [
  | inl full ↦
      let some_left : 0 < total c = ltb→lt 0 (total c) full in
      rw (to_int-pos (total c) small, not_zero (total c) some_left)
        (write_loop-Wrote writev progress w c (total c + 1) 0 (total c) some_left (omega arith)
          (omega arith))
  | inr empty ↦
      let nothing : total c ≡ 0 = ground (arith, empty) in
      rw (to_int-pos (total c) small, nothing) (idle nothing)
]
