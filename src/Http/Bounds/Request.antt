-- ===== src/Http/Bounds/Request.antt =====
-- do_request keeps the indices and the size of the read buffer.
use tiny_web_server_learning.Prelude.{
  ℕ, ◌&&◌, ◌||◌, not, true, List, arith, codes, Option, none, some, length, ltb,
}
use tiny_web_server_learning.Memory.{ok}
use tiny_web_server_learning.Memory.Partial.{
  Allows, allows, faults, Allows-any, Allows-bind, Allows-if, Allows-match, strcpy-HasSize,
}
use tiny_web_server_learning.CString.{strcasecmp_eq}
use tiny_web_server_learning.Http.Types.{HttpConn, CharPtr, null, read_buf, literal, FileStat}
use tiny_web_server_learning.Http.World.{World, System, find_user}
use tiny_web_server_learning.Http.Request.{
  string_at, overwrite_url, is_protected, credentials, insert_query, register, password_is, login,
  api_request, real_path, serve_stat, serve_file, is_post, dispatch_request, guard_pages, is_null,
  do_request,
}
use tiny_web_server_learning.Http.Bounds.{SameScan}
use tiny_web_server_learning.Http.Bounds.Content.{ServedKeeps}

overwrite_url-SameScan :
    (c : HttpConn) (u : CharPtr) (s : List ℕ) → Allows (SameScan c) (overwrite_url c u s)
unfolding overwrite_url
overwrite_url-SameScan c null s = faults
overwrite_url-SameScan c (read_buf p) s =
    Allows-bind (strcpy-HasSize c.read_buf p s) λ b e. allows (ground arith)
overwrite_url-SameScan c (literal t) s = faults

guard_pages-SameScan : (d : HttpConn) → Allows (SameScan d) (guard_pages d)
unfolding guard_pages
guard_pages-SameScan d = Allows-any (string_at d d.url) λ url.
    Allows-if (is_protected url && not d.cookie_is_login)
      (overwrite_url-SameScan d d.url (codes "/logError.html")) (allows (ground arith))

module _ (sys : System) (w : World) (c : HttpConn) where
  register-Keeps :
      (d : HttpConn) (name password : List ℕ)
      → SameScan c d
      → Allows (ServedKeeps w c) (register sys w d name password)
  unfolding register
  register-Keeps d name password h =
      Allows-match (find_user name w.users)
        (Allows-if (ltb (length (insert_query name password)) 200)
          (Allows-if (sys.insert_ok w.queries (insert_query name password)) (allows (ground arith))
            (allows (ground arith)))
          faults)
        λ stored. allows (ground arith)

  login-Keeps :
      (d : HttpConn) (name password : List ℕ)
      → SameScan c d
      → Allows (ServedKeeps w c) (login w d name password)
  unfolding login
  login-Keeps d name password h =
      Allows-if (password_is (find_user name w.users) password) (allows (ground arith))
        (allows (ground arith))

  api_request-Keeps :
      (d : HttpConn) (url : List ℕ) (p : CharPtr)
      → SameScan c d
      → Allows (ServedKeeps w c) (api_request sys w d url p)
  unfolding api_request
  api_request-Keeps d url null h = allows (ground arith)
  api_request-Keeps d url (literal s) h = faults
  api_request-Keeps d url (read_buf p) h = Allows-any (credentials d p) λ x.
      Allows-if (strcasecmp_eq url (codes "/3")) (register-Keeps d x.0 x.1 h)
        (login-Keeps d x.0 x.1 h)

  serve_stat-Keeps :
      (d : HttpConn) (path : List ℕ) (st : Option FileStat)
      → SameScan c d
      → Allows (ServedKeeps w c) (serve_stat sys w d path st)
  unfolding serve_stat
  serve_stat-Keeps d path none h = allows (ground arith)
  serve_stat-Keeps d path (some st) h =
      Allows-if (not st.s_iroth) (allows (ground arith))
        (Allows-if st.s_isdir (allows (ground arith)) (allows (ground arith)))

  serve_file-Keeps : (d : HttpConn) → SameScan c d → Allows (ServedKeeps w c) (serve_file sys w d)
  unfolding serve_file
  serve_file-Keeps d h =
      let same : Allows (SameScan d) (ok d) = allows (ground arith) in
      Allows-any (string_at d d.url) λ url.
        Allows-bind
          (Allows-if (strcasecmp_eq url (codes "/"))
            (overwrite_url-SameScan d d.url (codes "/index.html")) same)
          λ e scan. Allows-any (string_at e e.url) λ url'. Allows-any (real_path url') λ path.
            serve_stat-Keeps (record e { real_file = some path }) path (sys.stat path)
              (ground arith)

  dispatch_request-Keeps :
      (d : HttpConn) → SameScan c d → Allows (ServedKeeps w c) (dispatch_request sys w d)
  unfolding dispatch_request
  dispatch_request-Keeps d h = Allows-any (string_at d d.url) λ url.
      Allows-if
        (is_post d.method && (strcasecmp_eq url (codes "/2") || strcasecmp_eq url (codes "/3")))
        (api_request-Keeps (record d { is_json = true }) url d.string (ground arith))
        (serve_file-Keeps d h)

pub do_request-Keeps :
    (sys : System) (w : World) (c : HttpConn) → Allows (ServedKeeps w c) (do_request sys w c)
unfolding do_request
do_request-Keeps sys w c =
    Allows-if (is_null c.url) (allows (ground arith))
      (Allows-bind (guard_pages-SameScan c) λ d h. dispatch_request-Keeps sys w c d h)
