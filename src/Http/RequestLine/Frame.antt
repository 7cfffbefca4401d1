-- ===== src/Http/RequestLine/Frame.antt =====
-- parse_request_line stays inside its line, and what an accepted line leaves in m_url.
use tiny_web_server_learning.Prelude.{
  ℕ, suc, ◌+◌, ◌≤◌, ◌<◌, ◌≡◌, refl, false, List, [], ◌∷◌, ◌++◌, arith, ◌==◌, ==_iff, subst,
  if◌then◌else◌, length, codes,
}
use tiny_web_server_learning.Memory.{
  ok, ◌>>=◌, Returns, returns, Returns-if, Returns-match, poke, load, strcpy, load-ok, store-ok,
  c_string-ok, IsString,
}
use tiny_web_server_learning.Memory.Strings.{write_bytes-ok}
use tiny_web_server_learning.CString.{strpbrk, strspn, strchr, strcasecmp_eq, strncasecmp_eq}
use tiny_web_server_learning.CString.Laws.{
  strpbrk-SplitAt, strchr-SplitAt, strspn-Prefixed, strcasecmp_eq-length, strncasecmp_eq-Prefixed,
}
use tiny_web_server_learning.CString.Pieces.{
  length-SplitAt, length-Prefixed, IsString-before, IsString-after, IsString-from, IsString-back,
}
use tiny_web_server_learning.Http.Types.{
  HttpConn, null, get, post, bad_request, read_buf, check_state_header,
}
use tiny_web_server_learning.Http.RequestLine.{
  blanks, find_url, find_method, cut_version, find_version, find_path, complete_url,
  parse_request_line,
}
use tiny_web_server_learning.Http.RequestLine.Inside.{
  Inside, Outcome, refused, accepted, touch_nul, touch_members, index_html_written,
}

module _ (c : HttpConn) (text stop : ℕ) where
  complete_url-Outcome :
      (d : HttpConn) (p : ℕ) (q : List ℕ)
      → Inside c text stop d
      → text ≤ p
      → p + 11 ≤ stop
      → stop < c.read_buf.size
      → d.url ≡ read_buf p
      → IsString d.read_buf p (b'/' ∷ q)
      → Returns (Outcome c text stop) (complete_url d p)
  unfolding complete_url strcpy
  complete_url-Outcome d p [] h lo hi fits points v =
      rw
        (
          c_string-ok d.read_buf p (b'/' ∷ []) v,
          write_bytes-ok d.read_buf (suc p) (codes "index.html" ++ 0 ∷ []) (omega (arith, h.size)),
        )
        (returns (index_html_written c text stop d p h lo hi fits points v.spells.0))
  complete_url-Outcome d p (x ∷ q) h lo hi fits points v =
      let long : (length (b'/' ∷ x ∷ q) == 1) ≡ false = ground arith in
      rw (c_string-ok d.read_buf p (b'/' ∷ x ∷ q) v, long)
        (returns (
          accepted (touch_members c text stop d d.url d.version d.method check_state_header h) refl
            (record {
              place = p;
              name = x ∷ q;
              points = points;
              spelled = v;
              nonempty = omega arith;
            })))

  -- The test of the first byte, and the rest.
  relative_url-Outcome :
      (d : HttpConn) (p : ℕ) (s : List ℕ)
      → Inside c text stop d
      → text ≤ p
      → p + length s + 10 ≤ stop
      → stop < c.read_buf.size
      → d.url ≡ read_buf p
      → IsString d.read_buf p s
      → Returns (Outcome c text stop) (
          load d.read_buf p >>= λ first.
          if first == b'/' then complete_url d p else ok (bad_request, d))
  relative_url-Outcome d p [] h lo hi fits points v =
      rw (load-ok d.read_buf p (omega (arith, v.inside)), v.spells) (returns (refused h))
  relative_url-Outcome d p (x ∷ s) h lo hi fits points v =
      rw (load-ok d.read_buf p (omega (arith, v.inside)), v.spells.0)
        (Returns-if (x == b'/')
          (λ slash.
            let e : x ≡ b'/' = (==_iff x b'/').0 slash in
            complete_url-Outcome d p s h lo (omega arith) fits points
              (subst (λ y. IsString d.read_buf p (y ∷ s)) e v))
          λ other. returns (refused h))

  find_path-Outcome :
      (d : HttpConn) (u : ℕ) (s : List ℕ)
      → Inside c text stop d
      → text ≤ u
      → u + length s + 10 ≤ stop
      → stop < c.read_buf.size
      → d.url ≡ read_buf u
      → IsString d.read_buf u s
      → Returns (Outcome c text stop) (find_path d u complete_url)
  unfolding find_path
  find_path-Outcome d u s h lo hi fits points v = rw (c_string-ok d.read_buf u s v) (
      Returns-if (strncasecmp_eq s (codes "http://") 7)
        (λ absolute.
          let split = strncasecmp_eq-Prefixed s (codes "http://") 7 refl absolute in
          let host = IsString-back d.read_buf u s v split in
          rw (c_string-ok d.read_buf (u + 7) split.back host) (
            Returns-match (strchr split.back b'/')
              (λ lost.
                returns
                  (refused (touch_members c text stop d null d.version d.method d.check_state h)))
              λ k found.
                let (hit, slash) = strchr-SplitAt split.back b'/' k found in
                relative_url-Outcome (record d { url = read_buf (u + 7 + k) }) (u + 7 + k)
                  (hit.here ∷ hit.after)
                  (touch_members c text stop d (read_buf (u + 7 + k)) d.version d.method
                    d.check_state h)
                  (omega arith) (omega (arith, length-Prefixed split, length-SplitAt hit)) fits refl
                  (IsString-from d.read_buf (u + 7) split.back host hit)))
        λ other. relative_url-Outcome d u s h lo hi fits points v)

  find_version-Outcome :
      (d : HttpConn) (u : ℕ) (s : List ℕ)
      → Inside c text stop d
      → text ≤ u
      → u + length s + 1 ≡ stop
      → stop < c.read_buf.size
      → IsString d.read_buf u s
      → Returns (Outcome c text stop) (find_version d u λ f url. find_path f url complete_url)
  unfolding find_version cut_version
  find_version-Outcome d u s h lo end fits v =
      let skip = strspn-Prefixed s blanks in
      let url = u + strspn s blanks in
      let t = skip.back in
      let w = IsString-back d.read_buf u s v skip in
      rw (c_string-ok d.read_buf u s v, c_string-ok d.read_buf url t w)
        (Returns-match (strpbrk t blanks)
          (λ lost.
            returns
              (refused (touch_members c text stop d (read_buf url) null d.method d.check_state h)))
          λ j found.
            let hit = strpbrk-SplitAt t blanks j found in
            let b = poke d.read_buf (url + j) 0 in
            let version = read_buf (url + suc j) in
            let inside =
              touch_nul c text stop d (url + j) (read_buf url) version h (omega arith)
                (omega (arith, length-Prefixed skip, length-SplitAt hit)) in
            rw
              (
                store-ok d.read_buf (url + j) 0 (omega (arith, length-SplitAt hit, w.inside)),
                c_string-ok b (url + suc j) hit.after (IsString-after d.read_buf url t w hit),
              )
              (Returns-if (strcasecmp_eq hit.after (codes "HTTP/1.1"))
                (λ is.
                  let long = strcasecmp_eq-length hit.after (codes "HTTP/1.1") is in
                  find_path-Outcome
                    (record d { read_buf = b; url = read_buf url; version = version }) url
                    hit.before inside (omega arith)
                    (omega (arith, length-Prefixed skip, length-SplitAt hit, hit.index)) fits refl
                    (IsString-before d.read_buf url t w hit))
                λ other. returns (refused inside)))

  find_method-Outcome :
      (d : HttpConn) (a : List ℕ) (u : ℕ) (s : List ℕ)
      → Inside c text stop d
      → text ≤ u
      → u + length s + 1 ≡ stop
      → stop < c.read_buf.size
      → IsString d.read_buf text a
      → IsString d.read_buf u s
      → Returns
          (Outcome c text stop)
          (find_method d text λ e. find_version e u λ f url. find_path f url complete_url)
  unfolding find_method
  find_method-Outcome d a u s h lo end fits w v = rw (c_string-ok d.read_buf text a w) (
      Returns-if (strcasecmp_eq a (codes "GET"))
        (λ is.
          find_version-Outcome (record d { method = get }) u s
            (touch_members c text stop d d.url d.version get d.check_state h) lo end fits v)
        λ other.
          Returns-if (strcasecmp_eq a (codes "POST"))
            (λ is.
              find_version-Outcome (record d { method = post }) u s
                (touch_members c text stop d d.url d.version post d.check_state h) lo end fits v)
            λ neither. returns (refused h))

-- On a line that parse_line has cut off, parse_request_line ends without a fault, so it stays inside
-- the read buffer; it changes no byte outside the line and its two NULs, and no member but m_url,
-- m_version, m_method and m_check_state. It refuses the line, or goes on to the headers with a path in m_url
-- that begins with `/` and is longer than that.
pub parse_request_line-Outcome :
    (c : HttpConn) (text : ℕ) (line : List ℕ)
    → IsString c.read_buf text line
    → text + length line + 1 < c.read_buf.size
    → Returns (Outcome c text (text + length line + 1)) (parse_request_line c text)
unfolding parse_request_line find_url
parse_request_line-Outcome c text line v fits =
    let stop = text + length line + 1 in
    let here : Inside c text stop c = record {
      size = refl;
      outside = λ j away. refl;
      kept = refl;
    } in
    rw (c_string-ok c.read_buf text line v) (
      Returns-match (strpbrk line blanks)
        (λ lost.
          returns
            (refused (touch_members c text stop c null c.version c.method c.check_state here)))
        λ i found.
          let hit = strpbrk-SplitAt line blanks i found in
          rw (store-ok c.read_buf (text + i) 0 (omega (arith, length-SplitAt hit, v.inside))) (
            find_method-Outcome c text stop
              (record c { read_buf = poke c.read_buf (text + i) 0; url = read_buf (text + suc i) })
              hit.before (text + suc i) hit.after
              (touch_nul c text stop c (text + i) (read_buf (text + suc i)) c.version here
                (omega arith) (omega (arith, length-SplitAt hit)))
              (omega arith) (omega (arith, length-SplitAt hit)) fits
              (IsString-before c.read_buf text line v hit)
              (IsString-after c.read_buf text line v hit)))
