-- ===== src/Http/Reader/Asked.antt =====
-- The request line of a whole request, and what a request says.
use tiny_web_server_learning.Prelude.{
  ◌<◌, ℕ, suc, ◌+◌, ◌≤◌, ◌≡◌, refl, sym, ◌∙◌, ap, subst, ◌||◌, inr, List, ◌∷◌, ◌++◌, arith, length,
  length-append, All,
}
use tiny_web_server_learning.Memory.{ok, ok-injective, Returns-inv, IsString}
use tiny_web_server_learning.Memory.Bytes.{Bytes}
use tiny_web_server_learning.Memory.Strings.{SpellsAt-frame}
use tiny_web_server_learning.Http.Types.{
  HttpConn, HttpCode, Method, no_request, read_buf, check_state_requestline, check_state_header,
}
use tiny_web_server_learning.Http.RequestLine.{parse_request_line}
use tiny_web_server_learning.Http.RequestLine.Inside.{Inside, Outcome, refused, accepted}
use tiny_web_server_learning.Http.RequestLine.Frame.{parse_request_line-Outcome}
use tiny_web_server_learning.Http.RequestLine.Accept.{
  IsWord, Names, request_line, Taken, parse_request_line-Taken,
}
use tiny_web_server_learning.Http.Headers.Named.{Header}
use tiny_web_server_learning.Http.Headers.Sets.{keeps_alive, logged_in, multipart}
use tiny_web_server_learning.Http.Reader.Block.{block, says, last_length, AtHeaders, HeadersSet}
use tiny_web_server_learning.Http.Reader.Cut.{IsText, next, line-IsString, line-Bytes}
use tiny_web_server_learning.Memory.Bytes.{Bytes-from}

-- A request line with its headers.
abbrev pub request : List ℕ → List ℕ → List Header → List ℕ
request word path hs = request_line word path ++ b'\r' ∷ b'\n' ∷ block hs

-- The request stands in the read buffer, and none of it has been scanned.
pub record AtRequest (text : List ℕ) (c : HttpConn) : Type 0 where
  pub state : c.check_state ≡ check_state_requestline
  pub start : c.start_line ≡ c.checked_idx
  pub received : c.checked_idx + length text ≤ c.read_idx
  pub fits : c.read_idx ≤ c.read_buf.size
  pub bytes : Bytes c.read_buf c.checked_idx text

-- What has been read of the request.
pub record Asks (m : Method) (path : List ℕ) (hs : List Header) (c d : HttpConn) : Type 0 where
  pub method : d.method ≡ m
  pub place : ℕ
  pub points : d.url ≡ read_buf place
  pub spelled : IsString d.read_buf place path
  pub within : place + length path < d.checked_idx
  pub linger : d.linger ≡ (c.linger || says (λ h. keeps_alive h.name h.value) hs)
  pub stated : d.content_length ≡ last_length c.content_length hs
  pub login : d.cookie_is_login ≡ (c.cookie_is_login || says (λ h. logged_in h.name h.value) hs)
  pub multi : d.is_multipart ≡ (c.is_multipart || says (λ h. multipart h.name h.value) hs)
  pub kept : d ≡ record c {
    read_buf = d.read_buf;
    checked_idx = d.checked_idx;
    start_line = d.start_line;
    check_state = d.check_state;
    method = d.method;
    url = d.url;
    version = d.version;
    linger = d.linger;
    content_length = d.content_length;
    cookie_is_login = d.cookie_is_login;
    is_multipart = d.is_multipart;
    host = d.host;
    boundary = d.boundary;
  }

-- What stands behind the request is next.
pub record Behind (text : List ℕ) (c d : HttpConn) : Type 0 where
  pub start : d.start_line ≡ d.checked_idx
  pub checked : d.checked_idx ≡ c.checked_idx + length text
  pub size : d.read_buf.size ≡ c.read_buf.size
  pub after : (j : ℕ) → d.checked_idx ≤ j → d.read_buf.at j ≡ c.read_buf.at j

Outcome-Inside :
    {c : HttpConn} {text stop : ℕ} {r : HttpCode × HttpConn}
    → Outcome c text stop r
    → Inside c text stop r.1
Outcome-Inside (refused i) = i
Outcome-Inside (accepted i state path) = i

module _ (c : HttpConn) (word : List ℕ) (m : Method) (x : ℕ) (q : List ℕ) (hs : List Header)
    (text : All IsText (request_line word (b'/' ∷ x ∷ q)))
    (at : AtRequest (request word (b'/' ∷ x ∷ q) hs) c) where
  abbrev line : List ℕ
  line = request_line word (b'/' ∷ x ∷ q)

  pub more : length (request word (b'/' ∷ x ∷ q) hs) ≡ length line + suc (suc (length (block hs)))
  more = length-append line (b'\r' ∷ b'\n' ∷ block hs)

  pub room : c.checked_idx + length line + 2 ≤ c.read_idx
  room = omega (arith, more, at.received)

  abbrev stop : ℕ
  stop = c.checked_idx + length line + 1

  abbrev pub cut : HttpConn
  cut = next c line (block hs) text at.bytes at.start room at.fits

  pub cut-Taken :
      IsWord word
      → Names word m
      → IsWord (x ∷ q)
      → (d : HttpConn) × (parse_request_line cut c.checked_idx ≡ ok (no_request, d))
        × Taken m (b'/' ∷ x ∷ q) (c.checked_idx + length line) (no_request, d)
        × Inside cut c.checked_idx stop d
  cut-Taken single names path =
      let v = line-IsString c line (block hs) text at.bytes at.start room at.fits in
      let (r, ran, taken) =
        Returns-inv (parse_request_line-Taken cut c.checked_idx word m x q single names path v) in
      let (r', ran', out) =
        Returns-inv
          (parse_request_line-Outcome cut c.checked_idx line v (omega (arith, room, at.fits))) in
      let same : r' ≡ r = ok-injective (sym ran' ∙ ran) in
      let whole : r ≡ (no_request, r.1) = ap (λ y. (y, r.1)) taken.code in
      (
        r.1,
        ran ∙ ap ok whole,
        subst (Taken m (b'/' ∷ x ∷ q) (c.checked_idx + length line)) whole taken,
        subst (λ y. Inside cut c.checked_idx stop y.1) same (Outcome-Inside out),
      )

  pub taken-AtHeaders :
      (d : HttpConn)
      → d.check_state ≡ check_state_header
      → Inside cut c.checked_idx stop d
      → AtHeaders hs d
  taken-AtHeaders d state i =
      let checked : d.checked_idx ≡ cut.checked_idx = ap (λ y. y.checked_idx) i.kept in
      let start : d.start_line ≡ cut.start_line = ap (λ y. y.start_line) i.kept in
      let read : d.read_idx ≡ cut.read_idx = ap (λ y. y.read_idx) i.kept in
      record {
        state = state;
        start = start ∙ sym checked;
        received = omega (arith, checked, read, more, at.received);
        fits = omega (arith, read, i.size, at.fits);
        bytes = rw checked (
            Bytes-from cut.read_buf d.read_buf cut.checked_idx (block hs)
              (λ j lo. i.outside j (inr (omega (arith, lo))))
              (line-Bytes c line (block hs) text at.bytes at.start room at.fits));
      }

  pub Asks-from :
      (d f : HttpConn)
      → Taken m (b'/' ∷ x ∷ q) (c.checked_idx + length line) (no_request, d)
      → Inside cut c.checked_idx stop d
      → HeadersSet hs d f
      → Asks m (b'/' ∷ x ∷ q) hs c f
  Asks-from d f t i s =
      let checked : d.checked_idx ≡ cut.checked_idx = ap (λ y. y.checked_idx) i.kept in
      record {
        method = ap (λ y. y.method) s.kept ∙ t.method;
        place = t.place;
        points = ap (λ y. y.url) s.kept ∙ t.points;
        spelled = record {
          inside = omega (arith, t.spelled.inside, s.size);
          spells =
              SpellsAt-frame d.read_buf f.read_buf t.place (b'/' ∷ x ∷ q)
                (λ j lo hi. s.before j (omega (arith, checked, hi, t.within))) t.spelled.spells;
        };
        within = omega (arith, t.within, checked, s.checked);
        linger = s.linger ∙ ap (λ y. y.linger || says (λ h. keeps_alive h.name h.value) hs) i.kept;
        stated = s.stated ∙ ap (λ y. last_length y.content_length hs) i.kept;
        login =
            s.login ∙ ap (λ y. y.cookie_is_login || says (λ h. logged_in h.name h.value) hs) i.kept;
        multi =
            s.multi ∙ ap (λ y. y.is_multipart || says (λ h. multipart h.name h.value) hs) i.kept;
        kept =
            s.kept
            ∙ ap (λ y. set_by_headers y) i.kept
            ∙ rw (same_state, same_method, same_url, same_version) refl;
      }
    where
      set_by_headers : HttpConn → HttpConn
      set_by_headers y = record y {
        read_buf = f.read_buf;
        checked_idx = f.checked_idx;
        start_line = f.start_line;
        linger = f.linger;
        content_length = f.content_length;
        cookie_is_login = f.cookie_is_login;
        is_multipart = f.is_multipart;
        host = f.host;
        boundary = f.boundary;
      }

      same_state : f.check_state ≡ d.check_state
      same_state = ap (λ y. y.check_state) s.kept

      same_method : f.method ≡ d.method
      same_method = ap (λ y. y.method) s.kept

      same_url : f.url ≡ d.url
      same_url = ap (λ y. y.url) s.kept

      same_version : f.version ≡ d.version
      same_version = ap (λ y. y.version) s.kept

  pub Behind-from :
      (d f : HttpConn)
      → Inside cut c.checked_idx stop d
      → HeadersSet hs d f
      → Behind (request word (b'/' ∷ x ∷ q) hs) c f
  Behind-from d f i s =
      let checked : d.checked_idx ≡ cut.checked_idx = ap (λ y. y.checked_idx) i.kept in
      record {
        start = s.start;
        checked = omega (arith, s.checked, checked, more);
        size = s.size ∙ i.size;
        after = λ j hi.
            let past : c.checked_idx + length line + 2 ≤ j =
              omega (arith, hi, s.checked, checked) in
            let same : cut.read_buf.at j ≡ c.read_buf.at j = ground (arith, past) in
            s.after j hi ∙ i.outside j (inr (omega (arith, past))) ∙ same;
      }
