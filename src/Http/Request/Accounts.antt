-- ===== src/Http/Request/Accounts.antt =====
-- Registration and login in HttpConn::do_request: what a form leads to, and what is answered.
use tiny_web_server_learning.Prelude.{
  ℕ, ◌<◌, ◌≡◌, refl, ◌≢◌, ap, ◌∙◌, true, false, ◌||◌, List, ◌∷◌, Option, none, some, length, codes,
  Bool-cases, inl, inr, lt→ltb,
}
use tiny_web_server_learning.Memory.{ok, IsString, c_string-ok}
use tiny_web_server_learning.CString.{strcasecmp_eq}
use tiny_web_server_learning.CString.Laws.{same_bytes-eq, same_bytes_refl}
use tiny_web_server_learning.Http.Types.{HttpConn, get_request, read_buf, post}
use tiny_web_server_learning.Http.World.{World, System, find_user, set_user}
use tiny_web_server_learning.Http.World.Users.{find_user-set_user_self}
use tiny_web_server_learning.Http.Request.{
  insert_query, register, login, string_at, dispatch_request, guard_pages, api_request, is_null,
  is_protected, login_success, login_failed, reg_success, reg_failed, reg_exists, password_is,
  do_request,
}
use tiny_web_server_learning.Http.Request.Form.{HasForm, credentials-form}

-- A request that reached do_request: POST, m_url spells `url`, and the body is a form.
pub record IsForm (c : HttpConn) (url name password : List ℕ) : Type 0 where
  pub posted : c.method ≡ post
  pub place : ℕ
  pub located : c.url ≡ read_buf place
  pub spelled : IsString c.read_buf place url
  pub body : ℕ
  pub found : c.string ≡ read_buf body
  pub form : HasForm c body name password

url_read :
    (c : HttpConn) (url name password : List ℕ)
    → IsForm c url name password
    → string_at c c.url ≡ ok url
unfolding string_at
url_read c url name password h = rw h.located (c_string-ok c.read_buf h.place url h.spelled)

module _ (sys : System) (w : World) (c : HttpConn) (name password : List ℕ) where
  abbrev api_conn : HttpConn
  api_conn = record c { is_json = true }

  past_guard :
      (url : List ℕ)
      → IsForm c url name password
      → is_protected url ≡ false
      → do_request sys w c ≡ dispatch_request sys w c
  unfolding do_request guard_pages
  past_guard url h open_page =
      let given : is_null c.url ≡ false = rw h.located in
      rw (given, url_read c url name password h, open_page)

  dispatched :
      (url : List ℕ)
      → (h : IsForm c url name password)
      → (strcasecmp_eq url (codes "/2") || strcasecmp_eq url (codes "/3")) ≡ true
      → dispatch_request sys w c ≡ api_request sys w api_conn url (read_buf h.body)
  unfolding dispatch_request
  dispatched url h api = rw (url_read c url name password h, h.posted, api, h.found)

  api_form : {url : List ℕ} (h : IsForm c url name password) → HasForm api_conn h.body name password
  api_form h = record {
    spelled = h.form.spelled;
    whole = h.form.whole;
    name_fits = h.form.name_fits;
    password_fits = h.form.password_fits;
    name_field = h.form.name_field;
    password_field = h.form.password_field;
  }

  login_served :
      IsForm c (codes "/2") name password → do_request sys w c ≡ login w api_conn name password
  unfolding api_request strcasecmp_eq is_protected
  login_served h = rw (
    past_guard (codes "/2") h refl,
    dispatched (codes "/2") h refl,
    credentials-form api_conn h.body name password (api_form h),
  )

  register_served :
      IsForm c (codes "/3") name password
      → do_request sys w c ≡ register sys w api_conn name password
  unfolding api_request strcasecmp_eq is_protected
  register_served h = rw (
    past_guard (codes "/3") h refl,
    dispatched (codes "/3") h refl,
    credentials-form api_conn h.body name password (api_form h),
  )

password_is-some :
    (o : Option (List ℕ)) (password : List ℕ) → password_is o password ≡ true → o ≡ some password
password_is-some none password h = cc
password_is-some (some stored) password h = ap some (same_bytes-eq stored password h)

password_is-false :
    (o : Option (List ℕ)) (password : List ℕ) → o ≢ some password → password_is o password ≡ false
password_is-false o password ne = elim (Bool-cases (password_is o password)) [
  | inl same ↦ absurd (ne (password_is-some o password same))
  | inr differ ↦ differ
]

-- The login of a form whose password the map has under that name succeeds: the answer is the JSON
-- text for that, the cookie will be sent, and the connection is logged in. The shared state
-- stays as it is.
pub do_request-login_known :
    (sys : System) (w : World) (c : HttpConn) (name password : List ℕ)
    → IsForm c (codes "/2") name password
    → find_user name w.users ≡ some password
    → do_request sys w c
      ≡ ok (
        get_request,
        record c {
          is_json = true;
          json_string = some login_success;
          set_cookie = 1;
          cookie_is_login = true;
        },
        w,
      )
unfolding login
do_request-login_known sys w c name password h known =
    login_served sys w c name password h ∙ rw (known, same_bytes_refl password)

-- The login of a form fails if the map does not have that password under that name: the answer is
-- the JSON text for that, no cookie is set, the connection is not logged in by it, and the
-- shared state stays as it is.
pub do_request-login_unknown :
    (sys : System) (w : World) (c : HttpConn) (name password : List ℕ)
    → IsForm c (codes "/2") name password
    → find_user name w.users ≢ some password
    → do_request sys w c
      ≡ ok (get_request, record c { is_json = true; json_string = some login_failed }, w)
unfolding login
do_request-login_unknown sys w c name password h unknown =
    login_served sys w c name password h
    ∙ rw (password_is-false (find_user name w.users) password unknown)

-- Registration under a name that the map has is refused, and nothing else changes.
pub do_request-register_exists :
    (sys : System) (w : World) (c : HttpConn) (name password stored : List ℕ)
    → IsForm c (codes "/3") name password
    → find_user name w.users ≡ some stored
    → do_request sys w c
      ≡ ok (get_request, record c { is_json = true; json_string = some reg_exists }, w)
unfolding register
do_request-register_exists sys w c name password stored h known =
    register_served sys w c name password h ∙ rw (known, register)

-- Registration that the database refuses: one INSERT is sent, the answer says that it failed, and
-- the map stays as it is.
pub do_request-register_failed :
    (sys : System) (w : World) (c : HttpConn) (name password : List ℕ)
    → IsForm c (codes "/3") name password
    → length (insert_query name password) < 200
    → find_user name w.users ≡ none
    → sys.insert_ok w.queries (insert_query name password) ≡ false
    → do_request sys w c
      ≡ ok (
        get_request,
        record c { is_json = true; json_string = some reg_failed },
        record w { queries = insert_query name password ∷ w.queries },
      )
unfolding register
do_request-register_failed sys w c name password h fits new refused =
    register_served sys w c name password h ∙ rw (new, lt→ltb _ _ fits, refused, register)

-- What registration leaves behind when the database accepts it.
abbrev pub registered : World → List ℕ → List ℕ → World
registered w name password = record w {
  users = set_user name password w.users;
  queries = insert_query name password ∷ w.queries;
}

registered_served :
    (sys : System) (w : World) (c : HttpConn) (name password : List ℕ)
    → IsForm c (codes "/3") name password
    → length (insert_query name password) < 200
    → find_user name w.users ≡ none
    → sys.insert_ok w.queries (insert_query name password) ≡ true
    → do_request sys w c
      ≡ ok (
        get_request,
        record c { is_json = true; json_string = some reg_success },
        registered w name password,
      )
unfolding register
registered_served sys w c name password h fits new good =
    register_served sys w c name password h ∙ rw (new, lt→ltb _ _ fits, good, register)

-- Who registers under a new name, with a query of fewer than 200 bytes that the database accepts,
-- can log in: the registration answers so, and the login with the same name and password, on
-- whatever connection, then succeeds on the state that the registration has left.
pub do_request-register_login :
    (sys : System) (w : World) (c d : HttpConn) (name password : List ℕ)
    → IsForm c (codes "/3") name password
    → IsForm d (codes "/2") name password
    → length (insert_query name password) < 200
    → find_user name w.users ≡ none
    → sys.insert_ok w.queries (insert_query name password) ≡ true
    → let w' = registered w name password in
      (do_request sys w c
        ≡ ok (get_request, record c { is_json = true; json_string = some reg_success }, w'))
      × (do_request sys w' d
          ≡ ok (
            get_request,
            record d {
              is_json = true;
              json_string = some login_success;
              set_cookie = 1;
              cookie_is_login = true;
            },
            w',
          ))
do_request-register_login sys w c d name password h k fits new good = (
  registered_served sys w c name password h fits new good,
  do_request-login_known sys (registered w name password) d name password k
      (find_user-set_user_self name password w.users),
)
