-- ===== src/Http/Request/Form.antt =====
-- The form that the pages of HttpConn::do_request send: its text, and what the two loops read of it.
use tiny_web_server_learning.Prelude.{
  ℕ, zero, suc, ◌+◌, ◌-◌, ◌≤◌, ◌<◌, ◌≡◌, refl, ◌≢◌, ap, Bool, true, false, ◌||◌, List, [], ◌∷◌,
  ◌++◌, arith, ◌==◌, length, length-append, codes, All, lt→ltb,
}
use mathlib.Core.List.{append-nil}
use tiny_web_server_learning.Prelude.Int.{pos}
use tiny_web_server_learning.Memory.{ok, Buffer, load-ok, SpellsAt, IsString}
use tiny_web_server_learning.Memory.Strings.{NoNul, SpellsAt-suffix}
use tiny_web_server_learning.Http.Types.{HttpConn}
use tiny_web_server_learning.Http.Request.{copy_until, until_nul, in_array, credentials}

abbrev head_or_nul : List ℕ → ℕ
head_or_nul [] = 0
head_or_nul (x ∷ t) = x

at-head : (b : Buffer) (q : ℕ) (t : List ℕ) → SpellsAt b q t → b.at q ≡ head_or_nul t
at-head b q [] h = h
at-head b q (x ∷ t) h = h.0

-- The loop copies the bytes in front of the first that stops it.
copy_until-ok :
    (stop : ℕ → Bool) (n : ℕ) (b : Buffer) (q : ℕ) (s t : List ℕ)
    → SpellsAt b q (s ++ t)
    → q + length s < b.size
    → All (λ ch. stop ch ≡ false) s
    → length s ≤ n
    → stop (head_or_nul t) ≡ true
    → copy_until stop n b q ≡ ok s
unfolding copy_until
copy_until-ok stop zero b q [] t h fits go le last = rw (load-ok b q (omega arith))
copy_until-ok stop (suc n) b q [] t h fits go le last =
    rw (load-ok b q (omega arith), at-head b q t h, last)
copy_until-ok stop zero b q (x ∷ s) t h fits go le last = absurd (omega arith)
copy_until-ok stop (suc n) b q (x ∷ s) t h fits go le last = rw (
  load-ok b q (omega arith),
  h.0,
  go.0,
  copy_until-ok stop n b (suc q) s t h.2 (omega arith) go.1 (omega arith) last,
)

until_nul-NoNul : (s : List ℕ) → NoNul s → until_nul s ≡ s
until_nul-NoNul [] h = refl
until_nul-NoNul (zero ∷ s) h = absurd (h.0 refl)
until_nul-NoNul (suc c ∷ s) h = ap (◌∷◌ (suc c)) (until_nul-NoNul s h.1)

in_array-ok : (s : List ℕ) → NoNul s → length s < 100 → in_array s ≡ ok s
unfolding in_array
in_array-ok s h short = rw (lt→ltb (length s) 100 short, until_nul-NoNul s h)

-- No `&` stands in the text of a field.
abbrev pub IsField : List ℕ → Type 0
IsField = All (λ ch. (ch ≢ 0) × ((ch == b'&') ≡ false))

-- The body that the pages send.
abbrev pub form_body : List ℕ → List ℕ → List ℕ
form_body name password = codes "user=" ++ (name ++ (codes "&password=" ++ password))

-- The connection's body is the form, and m_content_length its length.
pub record HasForm (c : HttpConn) (p : ℕ) (name password : List ℕ) : Type 0 where
  pub spelled : IsString c.read_buf p (form_body name password)
  pub whole : c.content_length ≡ pos (length (form_body name password))
  pub name_fits : length name < 100
  pub password_fits : length password < 100
  pub name_field : IsField name
  pub password_field : IsField password

IsField-NoNul : (s : List ℕ) → IsField s → NoNul s
IsField-NoNul [] h = tt
IsField-NoNul (c ∷ s) h = (h.0.0, IsField-NoNul s h.1)

IsField-name : (s : List ℕ) → IsField s → All (λ ch. (ch == b'&') ≡ false) s
IsField-name [] h = tt
IsField-name (c ∷ s) h = (h.0.1, IsField-name s h.1)

IsField-password : (s : List ℕ) → IsField s → All (λ ch. (ch == 0 || ch == b'&') ≡ false) s
IsField-password [] h = tt
IsField-password (c ∷ s) h = (ground (arith, h.0), IsField-password s h.1)

-- The two loops find the name and the password of the form.
pub credentials-form :
    (c : HttpConn) (p : ℕ) (name password : List ℕ)
    → HasForm c p name password
    → credentials c p ≡ ok (name, password)
unfolding credentials
credentials-form c p name password h =
    let rest = codes "&password=" ++ password in
    let long = length-append name rest in
    let named : SpellsAt c.read_buf (p + 5) (name ++ rest) =
      SpellsAt-suffix c.read_buf p (p + 5) (codes "user=") (name ++ rest) refl h.spelled.spells in
    let worded : SpellsAt c.read_buf (p + (5 + length name + 10)) password =
      SpellsAt-suffix c.read_buf (p + 5 + length name) (p + (5 + length name + 10))
        (codes "&password=") password (omega arith)
        (SpellsAt-suffix c.read_buf (p + 5) (p + 5 + length name) name rest refl named) in
    let total = length (form_body name password) in
    rw (
      h.whole,
      copy_until-ok (λ ch. ch == b'&') (total - 5) c.read_buf (p + 5) name rest named
          (omega (arith, long, h.spelled.inside)) (IsField-name name h.name_field)
          (omega (arith, long)) refl,
      in_array-ok name (IsField-NoNul name h.name_field) h.name_fits,
      copy_until-ok (λ ch. ch == 0 || ch == b'&') (total - (5 + length name + 10)) c.read_buf
          (p + (5 + length name + 10)) password [] (rw append-nil worded)
          (omega (arith, long, h.spelled.inside)) (IsField-password password h.password_field)
          (omega (arith, long)) refl,
      in_array-ok password (IsField-NoNul password h.password_field) h.password_fits,
    )
