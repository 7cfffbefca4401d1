-- ===== src/Http/Transfer/Receive.antt =====
-- read_once takes in what the socket has.
use tiny_web_server_learning.Prelude.{
  ℕ, zero, suc, ◌+◌, ◌-◌, ◌≤◌, ◌<◌, ◌≡◌, refl, ◌∙◌, Bool, List, [], ◌∷◌, some, arith, leb, length,
  Bool-cases, inl, inr,
}
use tiny_web_server_learning.Memory.{Buffer, ok}
use tiny_web_server_learning.Memory.Strings.{written, write_bytes-ok, size-written, at-written}
use tiny_web_server_learning.Http.Types.{HttpConn}
use tiny_web_server_learning.Http.Line.Scan.{InBounds}
use tiny_web_server_learning.Http.Line.Resume.{Received, receive}
use tiny_web_server_learning.Http.Transfer.{
  RecvResult, received, recv_again, recv_failed, read_round, read_loop, read_once, Reading,
}

-- recv returns no more bytes than it was asked for.
abbrev pub FitsRequest : (ℕ → ℕ → RecvResult) → Type 0
FitsRequest recv = (k n : ℕ) (s : List ℕ) → recv k n ≡ received s → length s ≤ n

-- read_once has ended, and the connection has more of the same stream.
pub data TookIn (c : HttpConn) : Reading → Type 0 where
  took_in :
      {success : Bool} (b : Buffer) (r : ℕ)
      → Received c b r
      → b.size ≡ c.read_buf.size
      → TookIn c (some (ok (success, receive c b r)))

-- More bytes at the end of what was received.
Received-written :
    (c : HttpConn) (b : Buffer) (r : ℕ) (s : List ℕ)
    → Received c b r
    → length s ≤ b.size - r
    → Received c (written b r s) (r + length s)
Received-written c b r s g room = record {
  same = λ j lo. at-written b r s j (inl (omega (arith, g.more))) ∙ g.same j lo;
  more = omega (arith, g.more);
  fits = omega (arith, g.fits, size-written b r s);
}

module _ (recv : ℕ → ℕ → RecvResult) (fits : FitsRequest recv) (c : HttpConn) where
  -- The loop with less fuel, as the induction hands it on.
  abbrev Below : ℕ → (HttpConn → Reading) → Type 0
  Below n again =
      (b : Buffer) (r : ℕ)
      → Received c b r
      → b.size ≡ c.read_buf.size
      → b.size - r < n
      → TookIn c (again (receive c b r))

  read_round-TookIn :
      (n : ℕ) (again : HttpConn → Reading) (x : RecvResult) (b : Buffer) (r : ℕ)
      → Below n again
      → ((s : List ℕ) → x ≡ received s → length s ≤ b.size - r)
      → Received c b r
      → b.size ≡ c.read_buf.size
      → b.size - r < suc n
      → TookIn c (read_round again x (receive c b r))
  unfolding read_round
  read_round-TookIn n again recv_again b r below room g size few = took_in b r g size
  read_round-TookIn n again recv_failed b r below room g size few = took_in b r g size
  read_round-TookIn n again (received []) b r below room g size few = took_in b r g size
  read_round-TookIn n again (received (x ∷ xs)) b r below room g size few =
      let space = room (x ∷ xs) refl in
      let long = size-written b r (x ∷ xs) in
      rw (write_bytes-ok b r (x ∷ xs) (omega (arith, g.fits))) (
        below (written b r (x ∷ xs)) (r + length (x ∷ xs)) (Received-written c b r (x ∷ xs) g space)
          (long ∙ size) (omega (arith, long, g.fits)))

  read_loop-TookIn : (n k : ℕ) → Below n (read_loop n recv k)
  unfolding read_loop
  read_loop-TookIn zero k b r g size few = absurd (omega arith)
  read_loop-TookIn (suc n) k b r g size few =
      read_round-TookIn n (read_loop n recv (suc k)) (recv k (b.size - r)) b r
        (read_loop-TookIn n (suc k)) (fits k (b.size - r)) g size few

-- Where recv returns no more bytes than it was asked for, read_once ends, for whatever the socket
-- has: it never writes outside the read buffer, what was received before stays, m_read_idx
-- moves forward within the buffer, and the rest of the connection is as it was.
pub read_once-TookIn :
    (recv : ℕ → ℕ → RecvResult) (c : HttpConn)
    → FitsRequest recv
    → InBounds c
    → TookIn c (read_once recv c)
unfolding read_once
read_once-TookIn recv c fits v =
    let start : Received c c.read_buf c.read_idx = record {
      same = λ j lo. refl;
      more = omega arith;
      fits = v.received;
    } in
    elim (Bool-cases (leb c.read_buf.size c.read_idx)) [
      | inl full ↦ rw full (took_in c.read_buf c.read_idx start refl)
      | inr room ↦ rw room (
          read_loop-TookIn recv fits c (c.read_buf.size - c.read_idx + 1) 0 c.read_buf c.read_idx
            start refl (omega arith))
    ]
