-- ===== src/Http/Bounds/Content.antt =====
-- parse_content keeps the indices and the size of the read buffer.
use tiny_web_server_learning.Prelude.{
  ℕ, suc, ◌+◌, ◌-◌, [], ◌∷◌, ◌++◌, arith, ltb, codes, length, take, min,
}
use tiny_web_server_learning.Prelude.Int.{ℤ, pos, negsuc, pos_part}
use tiny_web_server_learning.Memory.{Buffer, c_string}
use tiny_web_server_learning.Memory.Partial.{
  Allows, allows, faults, Allows-any, Allows-bind, Allows-if, Allows-match, HasSize, store-HasSize,
}
use tiny_web_server_learning.CString.{strstr, strchr}
use tiny_web_server_learning.Http.Types.{HttpConn, HttpCode}
use tiny_web_server_learning.Http.World.{World, System}
use tiny_web_server_learning.Http.Content.{
  find_footer, boundary_str, upload_path, save_upload, parse_upload, parse_multipart_content,
  store_at, body_complete, parse_content,
}
use tiny_web_server_learning.Http.Bounds.{SameScan, SameEvents}

-- What a function with the shared state leaves as it is.
pub record ServedKeeps (w : World) (c : HttpConn) (r : HttpCode × HttpConn × World) : Type 0 where
  pub scan : SameScan c r.1
  pub events : SameEvents w r.2

store_at-HasSize :
    (b : Buffer) (text : ℕ) (i : ℤ) (v : ℕ) → Allows (HasSize b.size) (store_at b text i v)
unfolding store_at
store_at-HasSize b text (pos n) v = store-HasSize b (text + n) v
store_at-HasSize b text (negsuc n) v =
    Allows-if (ltb n text) (store-HasSize b (text - suc n) v) faults

module _ (sys : System) (w : World) where
  parse_upload-Keeps :
      (c d : HttpConn) (text start : ℕ)
      → SameScan c d
      → Allows (ServedKeeps w c) (parse_upload sys w d text start)
  unfolding parse_upload save_upload
  parse_upload-Keeps c d text start h =
      Allows-any
        (find_footer (pos_part d.content_length - (start - text) - length (boundary_str d))
          d.read_buf start (boundary_str d))
        λ end. Allows-match end (allows (ground arith)) λ n.
          Allows-if (sys.can_write (upload_path d.upload_filename)) (allows (ground arith))
            (allows (ground arith))

  parse_multipart_content-Keeps :
      (c d : HttpConn) (text : ℕ)
      → SameScan c d
      → Allows (ServedKeeps w c) (parse_multipart_content sys w d text)
  unfolding parse_multipart_content
  parse_multipart_content-Keeps c d text h = Allows-any (c_string d.read_buf text) λ body.
      Allows-match (strstr body (13 ∷ 10 ∷ [])) (allows (ground arith)) λ i.
        Allows-any (c_string d.read_buf (text + i + 2)) λ headers.
          Allows-match (strstr headers (codes "filename=" ++ b'"' ∷ [])) (allows (ground arith))
            λ j. Allows-any (c_string d.read_buf (text + i + 2 + j + 10)) λ names.
              Allows-match (strchr names b'"') (allows (ground arith)) λ k.
                Allows-any (c_string d.read_buf (text + i + 2 + j + 10 + k)) λ rest.
                  Allows-match (strstr rest (13 ∷ 10 ∷ 13 ∷ 10 ∷ [])) (allows (ground arith)) λ l.
                    parse_upload-Keeps c (record d { upload_filename = take (min k 99) names }) text
                      (text + i + 2 + j + 10 + k + l + 4) (ground arith)

  pub parse_content-Keeps :
      (c : HttpConn) (text : ℕ) → Allows (ServedKeeps w c) (parse_content sys w c text)
  unfolding parse_content
  parse_content-Keeps c text =
      Allows-if (body_complete c)
        (Allows-bind (store_at-HasSize c.read_buf text c.content_length 0) λ b size.
          Allows-if c.is_multipart
            (parse_multipart_content-Keeps c (record c { read_buf = b }) text (ground arith))
            (allows (ground arith)))
        (allows (ground arith))
