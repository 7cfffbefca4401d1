-- ===== src/Http/Request/Guard.antt =====
-- do_request and the pages for users who have logged in.
use tiny_web_server_learning.Prelude.{
  ℕ, ◌≡◌, ◌≢◌, ◌⊎◌, refl, Bool, true, false, ◌&&◌, not, List, ◌++◌, Option, none, some, arith,
  codes, Bool-cases, inl, inr,
}
use tiny_web_server_learning.Prelude.{ltb, length, ◌||◌}
use tiny_web_server_learning.Memory.{ok, ◌>>=◌}
use tiny_web_server_learning.Memory.Strings.{NoNul, strcpy-c_string}
use tiny_web_server_learning.Memory.Partial.{
  Allows, allows, faults, Allows-any, Allows-bind, Allows-if, Allows-match, Allows-ran, Allows-test,
}
use tiny_web_server_learning.CString.{strcasecmp_eq}
use tiny_web_server_learning.Http.Types.{
  HttpConn, HttpCode, file_request, CharPtr, null, read_buf, literal, FileStat,
}
use tiny_web_server_learning.Http.World.{World, System, find_user}
use tiny_web_server_learning.Http.Request.{
  string_at, overwrite_url, is_protected, guard_pages, serve_stat, serve_file, real_path,
  dispatch_request, api_request, do_request, is_null, login, register, insert_query, password_is,
  credentials, is_post,
}

index_html_open : is_protected (codes "/index.html") ≡ false
unfolding is_protected strcasecmp_eq
index_html_open = refl

log_error_open : is_protected (codes "/logError.html") ≡ false
unfolding is_protected strcasecmp_eq
log_error_open = refl

-- m_url is a string that no login protects.
abbrev IsOpen : HttpConn → Type 0
IsOpen c = (u : List ℕ) × (string_at c c.url ≡ ok u) × (is_protected u ≡ false)

-- Whatever file is served, it is a file below the document root by an unprotected name.
abbrev pub ServesOpen : HttpCode × HttpConn × World → Type 0
ServesOpen (code, d, w) =
    (code ≢ file_request)
    ⊎ ((u : List ℕ) × (d.real_file ≡ some (codes "resources" ++ u))
        × (strcasecmp_eq u (codes "/welcome.html") ≡ false)
        × (strcasecmp_eq u (codes "/media.html") ≡ false))

neither : (a b : Bool) → (a || b) ≡ false → (a ≡ false) × (b ≡ false)
neither true b h = cc h
neither false b h = (refl, h)

unprotected :
    (u : List ℕ)
    → is_protected u ≡ false
    → (strcasecmp_eq u (codes "/welcome.html") ≡ false)
      × (strcasecmp_eq u (codes "/media.html") ≡ false)
unfolding is_protected
unprotected u h =
    neither (strcasecmp_eq u (codes "/welcome.html")) (strcasecmp_eq u (codes "/media.html")) h

overwrite_url-IsOpen :
    (c : HttpConn) (p : CharPtr) (s : List ℕ)
    → c.url ≡ p
    → NoNul s
    → is_protected s ≡ false
    → Allows IsOpen (overwrite_url c p s)
unfolding overwrite_url string_at
overwrite_url-IsOpen c null s e n open_page = faults
overwrite_url-IsOpen c (read_buf p) s e n open_page =
    Allows-bind (strcpy-c_string c.read_buf p s n) λ b read. allows (s, rw e read, open_page)
overwrite_url-IsOpen c (literal t) s e n open_page = faults

module _ (sys : System) (w : World) where
  serve_stat-ServesOpen :
      (c : HttpConn) (u : List ℕ) (st : Option FileStat)
      → c.real_file ≡ some (codes "resources" ++ u)
      → is_protected u ≡ false
      → Allows ServesOpen (serve_stat sys w c (codes "resources" ++ u) st)
  unfolding serve_stat
  serve_stat-ServesOpen c u none e h = allows (inr (u, e, (unprotected u h).0, (unprotected u h).1))
  serve_stat-ServesOpen c u (some st) e h =
      Allows-if (not st.s_iroth) (allows (inr (u, e, (unprotected u h).0, (unprotected u h).1))) (
        Allows-if st.s_isdir (allows (inr (u, e, (unprotected u h).0, (unprotected u h).1)))
          (allows (inr (u, e, (unprotected u h).0, (unprotected u h).1))))

  path_served :
      (d : HttpConn) (u : List ℕ)
      → is_protected u ≡ false
      → Allows ServesOpen (
          real_path u >>= λ path.
          serve_stat sys w (record d { real_file = some path }) path (sys.stat path))
  unfolding real_path
  path_served d u h = elim (Bool-cases (ltb (length u) 191)) [
    | inl short ↦ rw short (
        serve_stat-ServesOpen (record d { real_file = some (codes "resources" ++ u) }) u
          (sys.stat (codes "resources" ++ u)) refl h)
    | inr long ↦ rw long faults
  ]

  open_served :
      (d : HttpConn)
      → IsOpen d
      → Allows ServesOpen (
          string_at d d.url >>= λ url'. real_path url' >>= λ path.
          serve_stat sys w (record d { real_file = some path }) path (sys.stat path))
  open_served d (u, read, h) = rw read (path_served d u h)

  serve_file-ServesOpen : (c : HttpConn) → IsOpen c → Allows ServesOpen (serve_file sys w c)
  unfolding serve_file
  serve_file-ServesOpen c (u, read, h) = rw read (
      Allows-bind
        (Allows-if (strcasecmp_eq u (codes "/"))
          (overwrite_url-IsOpen c c.url (codes "/index.html") refl (omega arith) index_html_open)
          (allows (u, read, h)))
        open_served)

  login-ServesOpen :
      (c : HttpConn) (name password : List ℕ) → Allows ServesOpen (login w c name password)
  unfolding login
  login-ServesOpen c name password =
      Allows-if (password_is (find_user name w.users) password) (allows (inl (λ e. cc)))
        (allows (inl (λ e. cc)))

  register-ServesOpen :
      (c : HttpConn) (name password : List ℕ) → Allows ServesOpen (register sys w c name password)
  unfolding register
  register-ServesOpen c name password =
      Allows-match (find_user name w.users)
        (Allows-if (ltb (length (insert_query name password)) 200)
          (Allows-if (sys.insert_ok w.queries (insert_query name password)) (allows (inl (λ e. cc)))
            (allows (inl (λ e. cc))))
          faults)
        λ stored. allows (inl (λ e. cc))

  api_request-ServesOpen :
      (c : HttpConn) (url : List ℕ) (p : CharPtr) → Allows ServesOpen (api_request sys w c url p)
  unfolding api_request
  api_request-ServesOpen c url null = allows (inl (λ e. cc))
  api_request-ServesOpen c url (literal s) = faults
  api_request-ServesOpen c url (read_buf p) = Allows-any (credentials c p) λ x.
      Allows-if (strcasecmp_eq url (codes "/3")) (register-ServesOpen c x.0 x.1)
        (login-ServesOpen c x.0 x.1)

  dispatch_request-ServesOpen :
      (c : HttpConn) → IsOpen c → Allows ServesOpen (dispatch_request sys w c)
  unfolding dispatch_request
  dispatch_request-ServesOpen c h = Allows-any (string_at c c.url) λ url.
      Allows-if
        (is_post c.method && (strcasecmp_eq url (codes "/2") || strcasecmp_eq url (codes "/3")))
        (api_request-ServesOpen (record c { is_json = true }) url c.string)
        (serve_file-ServesOpen c h)

guard_pages-IsOpen : (c : HttpConn) → c.cookie_is_login ≡ false → Allows IsOpen (guard_pages c)
unfolding guard_pages
guard_pages-IsOpen c out = Allows-ran (string_at c c.url) λ u read.
    Allows-test (is_protected u && not c.cookie_is_login)
      (λ _. overwrite_url-IsOpen c c.url (codes "/logError.html") refl (omega arith) log_error_open)
      λ e. allows (u, read, ground arith)

-- Without the login cookie a protected page is not served under its own name: whatever the URL, the
-- request faults, or what it is answered is no file, or a file whose path is the document root
-- with a URL behind it that spells neither /welcome.html nor /media.html, in any case of
-- its letters.
pub do_request-ServesOpen :
    (sys : System) (w : World) (c : HttpConn)
    → c.cookie_is_login ≡ false
    → Allows ServesOpen (do_request sys w c)
unfolding do_request
do_request-ServesOpen sys w c out =
    Allows-if (is_null c.url) (allows (inl (λ e. cc)))
      (Allows-bind (guard_pages-IsOpen c out) λ d h. dispatch_request-ServesOpen sys w d h)
