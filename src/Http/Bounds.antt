-- ===== src/Http/Bounds.antt =====
-- The parsers of the request line and the headers keep the indices and the size of the read buffer.
pub mod Content
pub mod Request
use tiny_web_server_learning.Prelude.{
  ℕ, suc, ◌+◌, ◌≡◌, refl, ◌∙◌, List, [], ◌∷◌, arith, codes, length, ◌==◌,
}
use tiny_web_server_learning.Memory.{Run, ok, fault, Buffer, load, store, c_string}
use tiny_web_server_learning.Memory.Partial.{
  Allows, allows, faults, Allows-any, Allows-bind, Allows-if, Allows-match, Allows-map, HasSize,
  store-HasSize, strcpy-HasSize,
}
use tiny_web_server_learning.CString.{strpbrk, strspn, strchr, strcasecmp_eq, strncasecmp_eq}
use tiny_web_server_learning.Http.Types.{HttpConn, HttpCode, get, post, read_buf}
use tiny_web_server_learning.Http.RequestLine.{
  Parsed, find_url, find_method, cut_version, find_version, find_path, complete_url,
  parse_request_line, blanks,
}
use tiny_web_server_learning.Prelude.{◌-◌, ◌++◌, ltb, drop, take, min}
use tiny_web_server_learning.Prelude.Int.{ℤ, pos, negsuc, pos_part}
use tiny_web_server_learning.CString.{strstr}
use tiny_web_server_learning.Http.World.{World, System}
use tiny_web_server_learning.Http.Content.{
  Served, find_footer, boundary_str, upload_path, save_upload, parse_upload,
  parse_multipart_content, store_at, body_complete, parse_content,
}
use tiny_web_server_learning.Http.Headers.{
  boundary_size, HeaderName, connection, content_length, host, cookie, content_type, other,
  header_value, is_zero, copy_boundary, parse_content_type, header_name, parse_header,
  parse_header_line, parse_headers,
}

-- `d` scans the same bytes as `c`, for the same socket.
pub record SameScan (c d : HttpConn) : Type 0 where
  pub size : d.read_buf.size ≡ c.read_buf.size
  pub read : d.read_idx ≡ c.read_idx
  pub checked : d.checked_idx ≡ c.checked_idx
  pub start : d.start_line ≡ c.start_line
  pub socket : d.sockfd ≡ c.sockfd

-- `v` has the same calls of epoll_ctl and close as `w`, and counts the same users.
pub record SameEvents (w v : World) : Type 0 where
  pub epoll : v.epoll ≡ w.epoll
  pub closed : v.closed ≡ w.closed
  pub counted : v.user_count ≡ w.user_count

abbrev pub Keeps : HttpConn → HttpCode × HttpConn → Type 0
Keeps c r = SameScan c r.1

module _ (c : HttpConn) where
  complete_url-Keeps : (d : HttpConn) (u : ℕ) → SameScan c d → Allows (Keeps c) (complete_url d u)
  unfolding complete_url
  complete_url-Keeps d u h = Allows-any (c_string d.read_buf u) λ s.
      Allows-if (length s == 1)
        (Allows-bind (strcpy-HasSize d.read_buf (suc u) (codes "index.html"))
          λ b e. allows (ground arith))
        (allows (ground arith))

  find_path-Keeps :
      (d : HttpConn) (u : ℕ) → SameScan c d → Allows (Keeps c) (find_path d u complete_url)
  unfolding find_path
  find_path-Keeps d u h = Allows-any (c_string d.read_buf u) λ s.
      Allows-if (strncasecmp_eq s (codes "http://") 7)
        (Allows-any (c_string d.read_buf (u + 7)) λ t.
          Allows-match (strchr t b'/') (allows (ground arith)) λ k.
            Allows-any (load d.read_buf (u + 7 + k)) λ first.
              Allows-if (first == b'/')
                (complete_url-Keeps (record d { url = read_buf (u + 7 + k) }) (u + 7 + k)
                  (ground arith))
                (allows (ground arith)))
        (Allows-any (load d.read_buf u)
          λ first. Allows-if (first == b'/') (complete_url-Keeps d u h) (allows h))

  find_version-Keeps :
      (d : HttpConn) (u : ℕ)
      → SameScan c d
      → Allows (Keeps c) (find_version d u λ e url. find_path e url complete_url)
  unfolding find_version cut_version
  find_version-Keeps d u h = Allows-any (c_string d.read_buf u) λ s.
      Allows-any (c_string d.read_buf (u + strspn s blanks)) λ t.
        Allows-match (strpbrk t blanks) (allows (ground arith)) λ j.
          Allows-bind (store-HasSize d.read_buf (u + strspn s blanks + j) 0) λ b size.
            Allows-any (c_string b (u + strspn s blanks + suc j)) λ v.
              Allows-if (strcasecmp_eq v (codes "HTTP/1.1"))
                (find_path-Keeps _ (u + strspn s blanks) (ground arith)) (allows (ground arith))

  find_method-Keeps :
      (d : HttpConn) (text u : ℕ)
      → SameScan c d
      → Allows
          (Keeps c)
          (find_method d text λ e. find_version e u λ f url. find_path f url complete_url)
  unfolding find_method
  find_method-Keeps d text u h = Allows-any (c_string d.read_buf text) λ s.
      Allows-if (strcasecmp_eq s (codes "GET"))
        (find_version-Keeps (record d { method = get }) u (ground arith))
        (Allows-if (strcasecmp_eq s (codes "POST"))
          (find_version-Keeps (record d { method = post }) u (ground arith)) (allows h))

pub parse_request_line-Keeps :
    (c : HttpConn) (text : ℕ) → Allows (Keeps c) (parse_request_line c text)
unfolding parse_request_line find_url
parse_request_line-Keeps c text = Allows-any (c_string c.read_buf text) λ s.
    Allows-match (strpbrk s blanks) (allows (ground arith)) λ i.
      Allows-bind (store-HasSize c.read_buf (text + i) 0) λ b size.
        find_method-Keeps c (record c { read_buf = b; url = read_buf (text + suc i) }) text
          (text + suc i) (ground arith)

parse_content_type-Keeps : (c : HttpConn) (v : List ℕ) → Allows (Keeps c) (parse_content_type c v)
unfolding parse_content_type
parse_content_type-Keeps c v =
    Allows-if (strncasecmp_eq v (codes "multipart/form-data") 19)
      (Allows-match (strstr v (codes "boundary=")) (allows (ground arith))
        λ k. Allows-if (ltb (length (drop (k + 9) v)) boundary_size) (allows (ground arith)) faults)
      (allows (ground arith))

parse_header-Keeps :
    (c : HttpConn) (text : ℕ) (name : HeaderName) → Allows (Keeps c) (parse_header c text name)
unfolding parse_header
parse_header-Keeps c text connection =
    Allows-any (header_value c text 11) λ x. allows (ground arith)
parse_header-Keeps c text content_length =
    Allows-any (header_value c text 15) λ x. allows (ground arith)
parse_header-Keeps c text host = Allows-any (header_value c text 5) λ x. allows (ground arith)
parse_header-Keeps c text cookie = Allows-any (header_value c text 7) λ x. allows (ground arith)
parse_header-Keeps c text content_type =
    Allows-any (header_value c text 13) λ x. parse_content_type-Keeps c x.1
parse_header-Keeps c text other = allows (ground arith)

parse_header_line-Keeps :
    (c : HttpConn) (text : ℕ) (s : List ℕ) → Allows (Keeps c) (parse_header_line c text s)
unfolding parse_header_line
parse_header_line-Keeps c text [] =
    Allows-if (is_zero c.content_length) (allows (ground arith)) (allows (ground arith))
parse_header_line-Keeps c text (x ∷ s) = parse_header-Keeps c text (header_name (x ∷ s))

pub parse_headers-Keeps : (c : HttpConn) (text : ℕ) → Allows (Keeps c) (parse_headers c text)
unfolding parse_headers
parse_headers-Keeps c text = Allows-any (c_string c.read_buf text) (parse_header_line-Keeps c text)
