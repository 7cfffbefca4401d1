-- ===== src/Http/Response/Append.antt =====
-- What the write buffer of HttpConn holds, and how add_response lets it grow.
use tiny_web_server_learning.Prelude.{
  ℕ, suc, ◌+◌, ◌-◌, ◌≤◌, ◌<◌, ◌≡◌, sym, ◌∙◌, inl, inr, true, false, List, [], ◌∷◌, ◌++◌, arith, leb,
  ltb, if◌then◌else◌, length, length-append, take, ltb→lt, Bool-cases,
}
use tiny_web_server_learning.Memory.{ok, Buffer, Returns, returns}
use tiny_web_server_learning.Memory.Strings.{written, size-written, at-written}
use tiny_web_server_learning.Http.Types.{HttpConn}
use tiny_web_server_learning.Http.Response.{add_response}
use tiny_web_server_learning.Memory.Bytes.{Bytes, Bytes-frame, Bytes-append, Bytes-written}
use tiny_web_server_learning.CString.Print.{take_all, print_at-ok}

-- The answer so far is `s`, in a write buffer of 1024 bytes.
pub record Holds (c : HttpConn) (s : List ℕ) : Type 0 where
  pub room : c.write_buf.size ≡ 1024
  pub index : c.write_idx ≡ length s
  pub short : length s < 1023
  pub bytes : Bytes c.write_buf 0 s

abbrev pub appended : HttpConn → List ℕ → HttpConn
appended c t = record c {
  write_buf = written c.write_buf c.write_idx (t ++ 0 ∷ []);
  write_idx = c.write_idx + length t;
}

pub Holds-appended :
    (c : HttpConn) (s t : List ℕ)
    → Holds c s
    → length s + length t < 1023
    → Holds (appended c t) (s ++ t)
Holds-appended c s t h few = record {
  room = size-written c.write_buf c.write_idx (t ++ 0 ∷ []) ∙ h.room;
  index = omega (arith, h.index, length-append s t);
  short = omega (arith, length-append s t);
  bytes =
      Bytes-append (written c.write_buf c.write_idx (t ++ 0 ∷ [])) 0 c.write_idx s t
        (omega (arith, h.index))
        (Bytes-frame c.write_buf (written c.write_buf c.write_idx (t ++ 0 ∷ [])) 0 s
          (λ j lo.
            at-written c.write_buf c.write_idx (t ++ 0 ∷ []) j (inl (omega (arith, h.index))))
          h.bytes)
        (Bytes-written c.write_buf c.write_idx t (0 ∷ []));
}

le→leb : (a b : ℕ) → a ≤ b → leb a b ≡ true
le→leb a b h = ground arith

lt→leb : (a b : ℕ) → b < a → leb a b ≡ false
lt→leb a b h = ground arith

-- add_response, with what is left of the buffer worked out.
cut_to_room : HttpConn → List ℕ → List ℕ → Buffer
cut_to_room c s t = written c.write_buf c.write_idx (take (1022 - length s) t ++ 0 ∷ [])

add_response-room :
    (c : HttpConn) (s t : List ℕ)
    → Holds c s
    → add_response c t ≡ (
        if leb (suc (1022 - length s)) (length t)
        then ok (false, record c { write_buf = cut_to_room c s t })
        else ok
            (true, record c { write_buf = cut_to_room c s t; write_idx = c.write_idx + length t }))
unfolding add_response cut_to_room
add_response-room c s t h =
    let left : c.write_buf.size - 1 - c.write_idx ≡ suc (1022 - length s) =
      omega (arith, h.room, h.index, h.short) in
    rw (
      lt→leb c.write_buf.size c.write_idx (omega (arith, h.room, h.index, h.short)),
      left,
      print_at-ok c.write_buf c.write_idx (1022 - length s) t
          (omega (arith, h.room, h.index, h.short)),
    )

-- Text that fits goes behind what is held.
pub add_response-fits :
    (c : HttpConn) (s t : List ℕ)
    → Holds c s
    → length s + length t < 1023
    → add_response c t ≡ ok (true, appended c t)
unfolding cut_to_room
add_response-fits c s t h few = rw (
  add_response-room c s t h,
  lt→leb (suc (1022 - length s)) (length t) (omega arith),
  take_all (1022 - length s) t (omega arith),
)

-- Text that does not fit leaves the answer as it was.
Holds-cut :
    (c : HttpConn) (s t : List ℕ) → Holds c s → Holds (record c { write_buf = cut_to_room c s t }) s
unfolding cut_to_room
Holds-cut c s t h = record {
  room = size-written c.write_buf c.write_idx (take (1022 - length s) t ++ 0 ∷ []) ∙ h.room;
  index = h.index;
  short = h.short;
  bytes =
      Bytes-frame c.write_buf (cut_to_room c s t) 0 s
        (λ j lo.
          at-written c.write_buf c.write_idx (take (1022 - length s) t ++ 0 ∷ []) j
            (inl (omega (arith, h.index))))
        h.bytes;
}

-- add_response never leaves the write buffer, and it is all or nothing: it returns true exactly
-- when the answer with the text has fewer than 1023 bytes, and the buffer then holds the answer so
-- far and the text behind it; otherwise it holds the answer so far, as before.
pub add_response-Returns :
    (c : HttpConn) (s t : List ℕ)
    → Holds c s
    → Returns
        (λ (fits, d).
          (fits ≡ ltb (length s + length t) 1023) × Holds d (if fits then s ++ t else s))
        (add_response c t)
add_response-Returns c s t h = elim (Bool-cases (ltb (length s + length t) 1023)) [
  | inl fits ↦
      let few = ltb→lt _ _ fits in
      rw (add_response-fits c s t h few) (returns (sym fits, Holds-appended c s t h few))
  | inr full ↦
      rw
        (
          add_response-room c s t h,
          le→leb (suc (1022 - length s)) (length t) (ground (arith, h.short)),
        )
        (returns (sym full, Holds-cut c s t h))
]
