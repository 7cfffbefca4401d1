-- ===== src/Http/RequestLine/Inside.antt =====
-- What a request line may change of a connection, and what it leaves in m_url.
use tiny_web_server_learning.Prelude.{
  ℕ, suc, ◌+◌, ◌≤◌, ◌<◌, ◌≡◌, refl, ap, ◌∙◌, ◌⊎◌, inl, List, [], ◌∷◌, ◌++◌, arith, length, codes,
}
use tiny_web_server_learning.Memory.{Buffer, poke, IsString}
use tiny_web_server_learning.Memory.Strings.{written, size-written, at-written, SpellsAt-written}
use tiny_web_server_learning.Http.Types.{
  HttpConn, HttpCode, CharPtr, Method, CheckState, bad_request, no_request, read_buf,
  check_state_header,
}

-- The connection's path: m_url points at a string that begins with `/` and is longer.
pub record HasPath (d : HttpConn) : Type 0 where
  pub place : ℕ
  pub name : List ℕ
  pub points : d.url ≡ read_buf place
  pub spelled : IsString d.read_buf place (b'/' ∷ name)
  pub nonempty : 0 < length name

module _ (c : HttpConn) (text stop : ℕ) where
  -- `d` is `c` but for the bytes from `text` to `stop` and the members that a request line sets.
  pub record Inside (d : HttpConn) : Type 0 where
    pub size : d.read_buf.size ≡ c.read_buf.size
    pub outside : (j : ℕ) → (j < text) ⊎ (stop < j) → d.read_buf.at j ≡ c.read_buf.at j
    pub kept : d ≡ record c {
      read_buf = d.read_buf;
      url = d.url;
      version = d.version;
      method = d.method;
      check_state = d.check_state;
    }

  -- How parse_request_line ends.
  pub data Outcome : HttpCode × HttpConn → Type 0 where
    refused : {d : HttpConn} → Inside d → Outcome (bad_request, d)
    accepted :
        {d : HttpConn}
        → Inside d
        → d.check_state ≡ check_state_header
        → HasPath d
        → Outcome (no_request, d)

  pub touch :
      (d : HttpConn) (b : Buffer) (u v : CharPtr) (m : Method) (s : CheckState)
      → Inside d
      → b.size ≡ d.read_buf.size
      → ((j : ℕ) → (j < text) ⊎ (stop < j) → b.at j ≡ d.read_buf.at j)
      → Inside (record d { read_buf = b; url = u; version = v; method = m; check_state = s })
  touch d b u v m s h size same = record {
    size = size ∙ h.size;
    outside = λ j away. same j away ∙ h.outside j away;
    kept =
        ap
          (λ (x : HttpConn). record x {
            read_buf = b;
            url = u;
            version = v;
            method = m;
            check_state = s;
          })
          h.kept;
  }

  pub touch_nul :
      (d : HttpConn) (i : ℕ) (u v : CharPtr)
      → Inside d
      → text ≤ i
      → i ≤ stop
      → Inside (record d { read_buf = poke d.read_buf i 0; url = u; version = v })
  touch_nul d i u v h lo hi =
      touch d (poke d.read_buf i 0) u v d.method d.check_state h refl λ j away. ground arith

  pub touch_members :
      (d : HttpConn) (u v : CharPtr) (m : Method) (s : CheckState)
      → Inside d
      → Inside (record d { url = u; version = v; method = m; check_state = s })
  touch_members d u v m s h = touch d d.read_buf u v m s h refl λ j away. refl

  pub index_html_written :
      (d : HttpConn) (p : ℕ)
      → Inside d
      → text ≤ p
      → p + 11 ≤ stop
      → stop < c.read_buf.size
      → d.url ≡ read_buf p
      → d.read_buf.at p ≡ b'/'
      → Outcome (
        no_request,
        record d {
          read_buf = written d.read_buf (suc p) (codes "index.html" ++ 0 ∷ []);
          check_state = check_state_header;
        },
      )
  index_html_written d p h lo hi fits points slash =
      let cs = codes "index.html" ++ 0 ∷ [] in
      let same = at-written d.read_buf (suc p) cs in
      let size = size-written d.read_buf (suc p) cs in
      accepted
        (touch d (written d.read_buf (suc p) cs) d.url d.version d.method check_state_header h size
          λ j away. same j (omega arith))
        refl
        (record {
          place = p;
          name = codes "index.html";
          points = points;
          spelled = record {
            inside = omega (arith, size, h.size);
            spells = (
              same p (inl (omega arith)) ∙ slash,
              omega arith,
              SpellsAt-written d.read_buf (suc p) (codes "index.html") (omega arith),
            );
          };
          nonempty = omega arith;
        })
