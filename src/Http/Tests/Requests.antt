-- ===== src/Http/Tests/Requests.antt =====
-- Witnesses of the theorems on reading and answering a request.
use tiny_web_server_learning.Prelude.{
  ◌≡◌, refl, ◌≢◌, ◌∷◌, [], ◌++◌, codes, arith, true, false, some, none,
}
use tiny_web_server_learning.Memory.{ok}
use tiny_web_server_learning.Memory.Partial.{Allows}
use tiny_web_server_learning.CString.{same_bytes}
use tiny_web_server_learning.Http.Types.{HttpConn, get_request, read_buf}
use tiny_web_server_learning.Http.World.{World, System, find_user}
use tiny_web_server_learning.Http.Request.{
  do_request, credentials, insert_query, login_success, login_failed, reg_exists, reg_failed,
  reg_success,
}
use tiny_web_server_learning.Http.Request.Guard.{ServesOpen, do_request-ServesOpen}
use tiny_web_server_learning.Http.Request.Form.{HasForm, credentials-form}
use tiny_web_server_learning.Http.Request.Accounts.{
  IsForm, registered, do_request-login_known, do_request-login_unknown, do_request-register_exists,
  do_request-register_failed, do_request-register_login,
}
use tiny_web_server_learning.Http.Reader.{process_read}
use tiny_web_server_learning.Http.Reader.Total.{Ends, process_read-Ends}
use tiny_web_server_learning.Http.Samples.{receiving, sample_system, sample_world, form_conn}

abbrev get_text : HttpConn
get_text = receiving (codes "GET /a HTTP/1.1" ++ 13 ∷ 10 ∷ 13 ∷ 10 ∷ [])

process_read-Ends_example : Ends (process_read sample_system sample_world get_text)
process_read-Ends_example =
    process_read-Ends sample_system sample_world get_text
      (record { started = omega arith; scanned = omega arith; received = omega arith })

-- A visitor asks for the page of those who are logged in.
abbrev welcome_conn : HttpConn
welcome_conn = record (receiving (codes "/welcome.html" ++ 0 ∷ codes "room for another path")) {
  url = read_buf 0;
}

do_request-ServesOpen_example :
    Allows ServesOpen (do_request sample_system sample_world welcome_conn)
do_request-ServesOpen_example = do_request-ServesOpen sample_system sample_world welcome_conn refl

abbrev ann_conn : HttpConn
ann_conn = form_conn (codes "/2") (codes "ann") (codes "secret")

ann-HasForm : HasForm ann_conn 3 (codes "ann") (codes "secret")
ann-HasForm = record {
  spelled = record { inside = omega arith; spells = omega arith };
  whole = refl;
  name_fits = omega arith;
  password_fits = omega arith;
  name_field = ground arith;
  password_field = ground arith;
}

credentials-form_example : credentials ann_conn 3 ≡ ok (codes "ann", codes "secret")
credentials-form_example = credentials-form ann_conn 3 (codes "ann") (codes "secret") ann-HasForm

ann-IsForm : IsForm ann_conn (codes "/2") (codes "ann") (codes "secret")
ann-IsForm = record {
  posted = refl;
  place = 0;
  located = refl;
  spelled = record { inside = omega arith; spells = omega arith };
  body = 3;
  found = refl;
  form = ann-HasForm;
}

abbrev bob_conn : HttpConn
bob_conn = form_conn (codes "/3") (codes "bob") (codes "pw")

bob-IsForm : IsForm bob_conn (codes "/3") (codes "bob") (codes "pw")
bob-IsForm = record {
  posted = refl;
  place = 0;
  located = refl;
  spelled = record { inside = omega arith; spells = omega arith };
  body = 3;
  found = refl;
  form = record {
    spelled = record { inside = omega arith; spells = omega arith };
    whole = refl;
    name_fits = omega arith;
    password_fits = omega arith;
    name_field = ground arith;
    password_field = ground arith;
  };
}

-- What ann is answered.
abbrev ann_in : HttpConn → HttpConn
ann_in c = record c {
  is_json = true;
  json_string = some login_success;
  set_cookie = 1;
  cookie_is_login = true;
}

ann-known : find_user (codes "ann") sample_world.users ≡ some (codes "secret")
unfolding find_user same_bytes
ann-known = refl

do_request-login_known_example :
    do_request sample_system sample_world ann_conn ≡ ok (get_request, ann_in ann_conn, sample_world)
do_request-login_known_example =
    do_request-login_known sample_system sample_world ann_conn (codes "ann") (codes "secret")
      ann-IsForm ann-known

-- Nobody has registered yet.
abbrev empty_world : World
empty_world = record sample_world { users = [] }

ann-unknown : find_user (codes "ann") empty_world.users ≢ some (codes "secret")
unfolding find_user
ann-unknown h = cc h

do_request-login_unknown_example :
    do_request sample_system empty_world ann_conn
    ≡ ok (
      get_request,
      record ann_conn { is_json = true; json_string = some login_failed },
      empty_world,
    )
do_request-login_unknown_example =
    do_request-login_unknown sample_system empty_world ann_conn (codes "ann") (codes "secret")
      ann-IsForm ann-unknown

abbrev bob_world : World
bob_world = record sample_world { users = (codes "bob", codes "x") ∷ [] }

bob-known : find_user (codes "bob") bob_world.users ≡ some (codes "x")
unfolding find_user same_bytes
bob-known = refl

do_request-register_exists_example :
    do_request sample_system bob_world bob_conn
    ≡ ok (get_request, record bob_conn { is_json = true; json_string = some reg_exists }, bob_world)
do_request-register_exists_example =
    do_request-register_exists sample_system bob_world bob_conn (codes "bob") (codes "pw")
      (codes "x") bob-IsForm bob-known

bob-unknown : find_user (codes "bob") sample_world.users ≡ none
unfolding find_user same_bytes
bob-unknown = refl

-- A database that refuses everything.
abbrev full_system : System
full_system = record sample_system { insert_ok = λ queries query. false }

do_request-register_failed_example :
    do_request full_system sample_world bob_conn
    ≡ ok (
      get_request,
      record bob_conn { is_json = true; json_string = some reg_failed },
      record sample_world { queries = insert_query (codes "bob") (codes "pw") ∷ [] },
    )
do_request-register_failed_example =
    do_request-register_failed full_system sample_world bob_conn (codes "bob") (codes "pw")
      bob-IsForm (omega arith) bob-unknown refl

abbrev bob_login : HttpConn
bob_login = form_conn (codes "/2") (codes "bob") (codes "pw")

bob_login-IsForm : IsForm bob_login (codes "/2") (codes "bob") (codes "pw")
bob_login-IsForm = record {
  posted = refl;
  place = 0;
  located = refl;
  spelled = record { inside = omega arith; spells = omega arith };
  body = 3;
  found = refl;
  form = record {
    spelled = record { inside = omega arith; spells = omega arith };
    whole = refl;
    name_fits = omega arith;
    password_fits = omega arith;
    name_field = ground arith;
    password_field = ground arith;
  };
}

do_request-register_login_example :
    (do_request sample_system sample_world bob_conn
      ≡ ok (
        get_request,
        record bob_conn { is_json = true; json_string = some reg_success },
        registered sample_world (codes "bob") (codes "pw"),
      ))
    × (do_request sample_system (registered sample_world (codes "bob") (codes "pw")) bob_login
        ≡ ok (get_request, ann_in bob_login, registered sample_world (codes "bob") (codes "pw")))
do_request-register_login_example =
    do_request-register_login sample_system sample_world bob_conn bob_login (codes "bob")
      (codes "pw") bob-IsForm bob_login-IsForm (omega arith) bob-unknown refl
