-- ===== src/Http/Content/Saved.antt =====
-- The end of HttpConn::parse_multipart_content of src/http_conn.cpp: an uploaded file is saved.
use tiny_web_server_learning.Prelude.{
  ℕ, zero, suc, ◌+◌, ◌-◌, ◌≤◌, ◌<◌, ◌≡◌, refl, ◌∙◌, ap, Bool, true, false, ◌&&◌, List, [], ◌∷◌,
  ◌++◌, Option, none, some, arith, leb, ◌==◌, if◌then◌else◌, length, length-append, drop, codes,
}
use tiny_web_server_learning.Prelude.Int.{pos, pos_part}
use tiny_web_server_learning.Memory.{Run, ok, ◌>>=◌, Buffer, slice}
use tiny_web_server_learning.Memory.Bytes.{Bytes}
use tiny_web_server_learning.CString.{same_bytes, starts_with}
use tiny_web_server_learning.Http.Types.{HttpConn, get_request, literal}
use tiny_web_server_learning.Http.World.{World, System}
use tiny_web_server_learning.Http.Content.{
  memcmp_eq, find_footer, boundary_str, upload_path, save_upload, parse_upload,
}

-- What ends the bytes of an uploaded file.
abbrev pub footer : List ℕ → List ℕ
footer boundary = 13 ∷ 10 ∷ boundary

-- No footer begins inside the file.
abbrev pub NoFooter : List ℕ → List ℕ → Type 0
NoFooter boundary [] = Unit {0}
NoFooter boundary (x ∷ s) =
    (starts_with (x ∷ (s ++ footer boundary)) (footer boundary) ≡ false) × NoFooter boundary s

Bytes-drop :
    (b : Buffer) (p n q : ℕ) (s : List ℕ)
    → q ≡ p + n
    → n ≤ length s
    → Bytes b p s
    → Bytes b q (drop n s)
Bytes-drop b p zero q s e l h = let e' : q ≡ p = omega (arith, e) in rw e' h
Bytes-drop b p (suc n) q [] e l h = absurd (omega (arith, l))
Bytes-drop b p (suc n) q (x ∷ s) e l (here, h) =
    Bytes-drop b (suc p) n q s (omega (arith, e)) (omega (arith, l)) h

-- memcmp of bytes that are there.
same_slice :
    (b : Buffer) (p : ℕ) (s t : List ℕ)
    → Bytes b p s
    → length t ≤ length s
    → same_bytes (slice b p (length t)) t ≡ starts_with s t
unfolding same_bytes starts_with
same_slice b p s [] h l = empty s
  where
    empty : (s : List ℕ) → true ≡ starts_with s []
    empty [] = refl
    empty (x ∷ s) = refl
same_slice b p [] (d ∷ t) h l = absurd (omega (arith, l))
same_slice b p (x ∷ s) (d ∷ t) (here, h) l =
    rw (here, same_slice b (suc p) s t h (omega (arith, l))) refl

memcmp_eq-Bytes :
    (b : Buffer) (p : ℕ) (s t : List ℕ)
    → Bytes b p s
    → length t ≤ length s
    → p + length s ≤ b.size
    → memcmp_eq b p t ≡ ok (starts_with s t)
unfolding memcmp_eq
memcmp_eq-Bytes b p s t h l room =
    let inside : leb (p + length t) b.size ≡ true = ground arith in
    rw (inside, same_slice b p s t h l) refl

and_assoc : (a b c : Bool) → (a && (b && c)) ≡ ((a && b) && c)
and_assoc true b c = refl
and_assoc false b c = refl

starts_with-append :
    (s t u : List ℕ)
    → length t ≤ length s
    → starts_with s (t ++ u) ≡ (starts_with s t && starts_with (drop (length t) s) u)
unfolding starts_with
starts_with-append [] [] u l = refl
starts_with-append (x ∷ s) [] u l = refl
starts_with-append [] (d ∷ t) u l = absurd (omega (arith, l))
starts_with-append (x ∷ s) (d ∷ t) u l =
    ap (λ z. (x == d) && z) (starts_with-append s t u (omega (arith, l)))
    ∙ and_assoc (x == d) (starts_with s t) (starts_with (drop (length t) s) u)

starts_with-itself : (s : List ℕ) → starts_with s s ≡ true
unfolding starts_with
starts_with-itself [] = refl
starts_with-itself (x ∷ s) = ground (arith, starts_with-itself s)

length-drop : {A : Type 0} (n : ℕ) (s : List A) → length (drop n s) ≡ length s - n
length-drop zero s = omega arith
length-drop (suc n) [] = omega arith
length-drop (suc n) (x ∷ s) = omega (arith, length-drop n s)

slice-Bytes : (b : Buffer) (p : ℕ) (s t : List ℕ) → Bytes b p (s ++ t) → slice b p (length s) ≡ s
slice-Bytes b p [] t h = refl
slice-Bytes b p (x ∷ s) t (here, h) = rw (here, slice-Bytes b (suc p) s t h) refl

-- The search of the footer, on the bytes that stand at `p`.
module _ (b : Buffer) (boundary : List ℕ) where
  next_found : Run (Option ℕ) → Run (Option ℕ)
  next_found r = r >>= λ found. elim found [ none ↦ ok none | some i ↦ ok (some (suc i)) ]

  -- A round of the search: is the footer at `p`?
  find_footer-round :
      (n p : ℕ) (s : List ℕ)
      → Bytes b p s
      → length (footer boundary) ≤ length s
      → p + length s ≤ b.size
      → find_footer (suc n) b p boundary ≡ (
          if starts_with s (footer boundary)
          then ok (some 0)
          else next_found (find_footer n b (suc p) boundary))
  unfolding find_footer next_found
  find_footer-round n p s h l room =
      let crlf = memcmp_eq-Bytes b p s (13 ∷ 10 ∷ []) h (omega (arith, l)) room in
      let rest = drop 2 s in
      let end =
        memcmp_eq-Bytes b (p + 2) rest boundary
          (Bytes-drop b p 2 (p + 2) s refl (omega (arith, l)) h) (omega (arith, l, length-drop 2 s))
          (omega (arith, room, length-drop 2 s)) in
      let both = starts_with-append s (13 ∷ 10 ∷ []) boundary (omega (arith, l)) in
      rw (crlf, end, both) (pick _ (starts_with s (13 ∷ 10 ∷ [])) (starts_with rest boundary))
    where
      pick :
          (r : Run (Option ℕ)) (x y : Bool)
          → (if x then (if y then ok (some 0) else r) else r) ≡ (if x && y then ok (some 0) else r)
      pick r true y = refl
      pick r false y = refl

  find_footer-found :
      (n p : ℕ) (content : List ℕ)
      → Bytes b p (content ++ footer boundary)
      → NoFooter boundary content
      → length content < n
      → p + length (content ++ footer boundary) ≤ b.size
      → find_footer n b p boundary ≡ ok (some (length content))
  unfolding next_found
  find_footer-found zero p content h free few room = absurd (omega (arith, few))
  find_footer-found (suc n) p [] h free few room =
      find_footer-round n p (footer boundary) h (omega arith) room
      ∙ rw (starts_with-itself (footer boundary)) refl
  find_footer-found (suc n) p (x ∷ s) h (here, free) few room =
      find_footer-round n p (x ∷ (s ++ footer boundary)) h
        (omega (arith, length-append s (footer boundary))) room
      ∙ rw (here, find_footer-found n (suc p) s h.1 free (omega (arith, few)) (omega (arith, room)))
          refl

-- An upload whose headers have been passed: where the bytes of the file and the footer stand in the
-- read buffer, inside the length that the request states, no footer begins inside the file, and
-- the path can be written, parse_multipart_content writes exactly the bytes of the file, once,
-- under the path of the upload, sets m_url to /welcome.html and returns GET_REQUEST.
pub parse_upload-saves :
    (sys : System) (w : World) (c : HttpConn) (text start n : ℕ) (content : List ℕ)
    → c.content_length ≡ pos n
    → Bytes c.read_buf start (content ++ footer (boundary_str c))
    → NoFooter (boundary_str c) content
    → start + length (content ++ footer (boundary_str c)) ≤ c.read_buf.size
    → text ≤ start
    → start + length (content ++ footer (boundary_str c)) ≤ text + n
    → sys.can_write (upload_path c.upload_filename) ≡ true
    → parse_upload sys w c text start
      ≡ ok (
        get_request,
        record c { url = literal (codes "/welcome.html") },
        record w { files = (upload_path c.upload_filename, content) ∷ w.files },
      )
unfolding parse_upload save_upload
parse_upload-saves sys w c text start n content stated there free room after whole can_write =
    let boundary = boundary_str c in
    let rounds = pos_part c.content_length - (start - text) - length boundary in
    let many : length content < rounds =
      omega (arith, whole, after, length-append content (footer boundary), ap pos_part stated) in
    rw (
      find_footer-found c.read_buf boundary rounds start content there free many room,
      can_write,
      slice-Bytes c.read_buf start content (footer boundary) there,
    )
