-- ===== src/Http/Request/Upload.antt =====
-- do_request after an upload: parse_multipart_content has set m_url to a string literal.
use tiny_web_server_learning.Prelude.{
  ℕ, ◌+◌, ◌-◌, ◌≡◌, ◌≢◌, ◌⊎◌, inl, inr, refl, ap, ◌∙◌, sym, false, [], ◌∷◌, ◌++◌, codes, length,
  take, min,
}
use tiny_web_server_learning.Prelude.Int.{pos_part}
use tiny_web_server_learning.Memory.{fault, ok, c_string, ok-injective}
use tiny_web_server_learning.Memory.Partial.{
  Allows, allows, faults, Allows-any, Allows-if, Allows-match,
}
use tiny_web_server_learning.CString.{strcasecmp_eq, strstr, strchr}
use tiny_web_server_learning.Http.Types.{HttpConn, HttpCode, get_request, literal}
use tiny_web_server_learning.Http.World.{World, System}
use tiny_web_server_learning.Http.Content.{
  Served, find_footer, boundary_str, upload_path, save_upload, parse_upload,
  parse_multipart_content,
}
use tiny_web_server_learning.Http.Request.{
  string_at, overwrite_url, is_protected, guard_pages, do_request,
}

-- A successful upload: m_url is the literal, and the login is what it was.
abbrev Uploaded : HttpConn → HttpCode × HttpConn × World → Type 0
Uploaded c (code, d, v) =
    (code ≢ get_request)
    ⊎ ((d.url ≡ literal (codes "/welcome.html")) × (d.cookie_is_login ≡ c.cookie_is_login))

module _ (sys : System) (w : World) where
  parse_upload-Uploaded :
      (c d : HttpConn) (text start : ℕ)
      → d.cookie_is_login ≡ c.cookie_is_login
      → Allows (Uploaded c) (parse_upload sys w d text start)
  unfolding parse_upload save_upload
  parse_upload-Uploaded c d text start same =
      Allows-any
        (find_footer (pos_part d.content_length - (start - text) - length (boundary_str d))
          d.read_buf start (boundary_str d))
        λ end. Allows-match end (allows (inl (λ e. cc))) λ n.
          Allows-if (sys.can_write (upload_path d.upload_filename)) (allows (inr (refl, same)))
            (allows (inl (λ e. cc)))

  parse_multipart_content-Uploaded :
      (c : HttpConn) (text : ℕ) → Allows (Uploaded c) (parse_multipart_content sys w c text)
  unfolding parse_multipart_content
  parse_multipart_content-Uploaded c text = Allows-any (c_string c.read_buf text) λ body.
      Allows-match (strstr body (13 ∷ 10 ∷ [])) (allows (inl (λ e. cc))) λ i.
        Allows-any (c_string c.read_buf (text + i + 2)) λ headers.
          Allows-match (strstr headers (codes "filename=" ++ b'"' ∷ [])) (allows (inl (λ e. cc)))
            λ j. Allows-any (c_string c.read_buf (text + i + 2 + j + 10)) λ names.
              Allows-match (strchr names b'"') (allows (inl (λ e. cc))) λ k.
                Allows-any (c_string c.read_buf (text + i + 2 + j + 10 + k)) λ rest.
                  Allows-match (strstr rest (13 ∷ 10 ∷ 13 ∷ 10 ∷ [])) (allows (inl (λ e. cc))) λ l.
                    parse_upload-Uploaded c (record c { upload_filename = take (min k 99) names })
                      text (text + i + 2 + j + 10 + k + l + 4) refl

do_request-literal :
    (sys : System) (w : World) (c : HttpConn)
    → c.url ≡ literal (codes "/welcome.html")
    → c.cookie_is_login ≡ false
    → do_request sys w c ≡ fault
unfolding do_request guard_pages string_at overwrite_url is_protected strcasecmp_eq
do_request-literal sys w c url out = rw (url, out)

Uploaded-fault :
    (sys : System) (c d : HttpConn) (v : World) (x : HttpCode × HttpConn × World)
    → Uploaded c x
    → x.0 ≡ get_request
    → x.1 ≡ d
    → c.cookie_is_login ≡ false
    → do_request sys v d ≡ fault
Uploaded-fault sys c d v x (inl not_get) code conn out = absurd (not_get code)
Uploaded-fault sys c d v x (inr (url, same)) code conn out =
    do_request-literal sys v d (sym (ap (λ e. e.url) conn) ∙ url)
      (sym (ap (λ e. e.cookie_is_login) conn) ∙ same ∙ out)

served-fault :
    (sys : System) (c d : HttpConn) (v : World) {r : Served}
    → Allows (Uploaded c) r
    → r ≡ ok (get_request, d, v)
    → c.cookie_is_login ≡ false
    → do_request sys v d ≡ fault
served-fault sys c d v (allows {a = x} p) e out =
    let is = ok-injective e in
    Uploaded-fault sys c d v x p (ap (λ y. y.0) is) (ap (λ y. y.1) is) out
served-fault sys c d v faults e out = cc e

-- An upload by a client that is not logged in ends in a fault: whenever parse_multipart_content has
-- saved the file and returned GET_REQUEST, the do_request that process_read then calls writes
-- into a string literal.
pub do_request-parse_multipart_content :
    (sys : System) (w v : World) (c d : HttpConn) (text : ℕ)
    → parse_multipart_content sys w c text ≡ ok (get_request, d, v)
    → c.cookie_is_login ≡ false
    → do_request sys v d ≡ fault
do_request-parse_multipart_content sys w v c d text ran out =
    served-fault sys c d v (parse_multipart_content-Uploaded sys w c text) ran out
