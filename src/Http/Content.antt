-- ===== src/Http/Content.antt =====
-- HttpConn::parse_content and HttpConn::parse_multipart_content of src/http_conn.cpp.
pub mod Saved
use tiny_web_server_learning.Prelude.{
  ℕ, zero, suc, ◌+◌, ◌-◌, Bool, List, [], ◌∷◌, ◌++◌, Option, none, some, leb, ltb, if◌then◌else◌,
  length, take, codes, min, not,
}
use tiny_web_server_learning.Prelude.Int.{ℤ, pos, negsuc, pos_part, ◌+ℤ◌, ltb_ℤ}
use tiny_web_server_learning.Memory.{Run, ok, fault, ◌>>=◌, Buffer, slice, store, c_string}
use tiny_web_server_learning.CString.{strstr, strchr, same_bytes, to_int}
use tiny_web_server_learning.Http.Types.{
  HttpConn, HttpCode, no_request, get_request, bad_request, internal_error, read_buf, literal,
}
use tiny_web_server_learning.Http.World.{World, System}

-- What a function returns that reaches the shared state.
abbrev pub Served : Type 0
Served = Run (HttpCode × HttpConn × World)

-- `memcmp(b + p, cs, length) == 0`
unfoldable pub memcmp_eq : Buffer → ℕ → List ℕ → Run Bool
memcmp_eq b p cs =
    if leb (p + length cs) b.size then ok (same_bytes (slice b p (length cs)) cs) else fault

-- The search for the footer, on the number of rounds left: the offset from `p`.
unfoldable pub find_footer : ℕ → Buffer → ℕ → List ℕ → Run (Option ℕ)
find_footer zero b p boundary = ok none
find_footer (suc n) b p boundary =
    let next : Run (Option ℕ) = do
      found ← find_footer n b (suc p) boundary
      elim found [ none ↦ ok none | some i ↦ ok (some (suc i)) ]
    in memcmp_eq b p (13 ∷ 10 ∷ []) >>= λ crlf.
    if crlf
    then (memcmp_eq b (p + 2) boundary >>= λ end. if end then ok (some 0) else next)
    else next

-- boundary_str, cut by snprintf
abbrev pub boundary_str : HttpConn → List ℕ
boundary_str c = take 199 (codes "--" ++ c.boundary)

-- file_path, cut by snprintf
abbrev pub upload_path : List ℕ → List ℕ
upload_path name = take 255 (codes "resources/upload_" ++ name)

-- fopen, fwrite and fclose of the `n` bytes at `p`, and the new m_url.
unfoldable pub save_upload : System → World → HttpConn → ℕ → ℕ → Served
save_upload sys w c p n =
    let path = upload_path c.upload_filename in
    if sys.can_write path
    then ok (
      get_request,
      record c { url = literal (codes "/welcome.html") },
      record w { files = (path, slice c.read_buf p n) ∷ w.files },
    )
    else ok (internal_error, c, w)

-- The uploaded bytes, from `start` up to the footer.
unfoldable pub parse_upload : System → World → HttpConn → ℕ → ℕ → Served
parse_upload sys w c text start = do
  let rounds = pos_part c.content_length - (start - text) - length (boundary_str c)
  end ← find_footer rounds c.read_buf start (boundary_str c)
  elim end [ none ↦ ok (bad_request, c, w) | some n ↦ save_upload sys w c start n ]

unfoldable pub parse_multipart_content : System → World → HttpConn → ℕ → Served
unfolding parse_upload save_upload
parse_multipart_content sys w c text = do
  let refuse = λ (d : HttpConn). ok (bad_request, d, w)
  body ← c_string c.read_buf text
  elim (strstr body (13 ∷ 10 ∷ [])) [
    | none ↦ refuse c
    | some i ↦ do
      let start_headers = text + i + 2
      headers ← c_string c.read_buf start_headers
      elim (strstr headers (codes "filename=" ++ b'"' ∷ [])) [
        | none ↦ refuse c
        | some j ↦ do
          let filename_ptr = start_headers + j + 10
          names ← c_string c.read_buf filename_ptr
          elim (strchr names b'"') [
            | none ↦ refuse c
            | some k ↦ do
              let d = record c { upload_filename = take (min k 99) names }
              rest ← c_string c.read_buf (filename_ptr + k)
              elim (strstr rest (13 ∷ 10 ∷ 13 ∷ 10 ∷ [])) [
                | none ↦ refuse d
                | some l ↦ parse_upload sys w d text (filename_ptr + k + l + 4)
              ]
          ]
      ]
  ]

-- text[n] = '\0' at a signed index
unfoldable pub store_at : Buffer → ℕ → ℤ → ℕ → Run Buffer
store_at b text (pos n) v = store b (text + n) v
store_at b text (negsuc n) v = if ltb n text then store b (text - suc n) v else fault

-- Has the whole body arrived?
unfoldable pub body_complete : HttpConn → Bool
body_complete c = not (ltb_ℤ (pos c.read_idx) (to_int (c.content_length +ℤ pos c.checked_idx)))

unfoldable pub parse_content : System → World → HttpConn → ℕ → Served
unfolding body_complete store_at
parse_content sys w c text =
    if body_complete c
    then (do
      b ← store_at c.read_buf text c.content_length 0
      let d = record c { read_buf = b }
      if d.is_multipart
          then parse_multipart_content sys w d text
          else ok (get_request, record d { string = read_buf text }, w))
    else ok (no_request, c, w)
