-- ===== src/Http/Conn/Process.antt =====
-- HttpConn::process from the request to the answer.
use tiny_web_server_learning.Prelude.{
  ℕ, ◌≡◌, ◌≢◌, sym, ap, refl, ◌∙◌, Bool, true, false, List, ◌∷◌, some, none, ◌==◌, leb, length, ◌-◌,
  if◌then◌else◌,
}
use tiny_web_server_learning.Prelude.Int.{ℤ, pos}
use tiny_web_server_learning.Memory.{Run, ok, fault, ◌>>=◌}
use tiny_web_server_learning.Memory.Partial.{
  Allows, allows, faults, Allows-any, Allows-bind, Allows-if, Allows-test,
}
use tiny_web_server_learning.CString.{to_int}
use tiny_web_server_learning.Http.Types.{
  HttpConn, HttpCode, no_request, get_request, bad_request, no_resource, forbidden_request,
  file_request, internal_error, closed_connection,
}
use tiny_web_server_learning.Http.World.{World, System, epoll_mod_in, epoll_mod_out, epoll_del}
use tiny_web_server_learning.Http.Request.{string_at}
use tiny_web_server_learning.Http.Reader.{process_read}
use tiny_web_server_learning.CString.Print.{print_at}
use tiny_web_server_learning.Http.Response.{
  add_response, add_content_type, add_cookie, cookie_line, add_headers, add_page, send_buffer,
  answer_page, answer_file, process_write,
}
use tiny_web_server_learning.Http.Conn.{
  call_epoll, close_conn, is_no_request, process, process_answer, serve_result,
}

abbrev SameSocket : HttpConn → HttpConn → Type 0
SameSocket c d = d.sockfd ≡ c.sockfd

abbrev pub Answers : HttpConn → Bool × HttpConn → Type 0
Answers c x = SameSocket c x.1

module _ (c : HttpConn) where
  add_response-SameSocket :
      (d : HttpConn) (text : List ℕ) → SameSocket c d → Allows (Answers c) (add_response d text)
  unfolding add_response
  add_response-SameSocket d text h = Allows-if (leb d.write_buf.size d.write_idx) (allows h) (
      Allows-any (print_at d.write_buf d.write_idx (d.write_buf.size - 1 - d.write_idx) text) λ b.
        Allows-if (leb (d.write_buf.size - 1 - d.write_idx) (length text)) (allows h) (allows h))

  add_content_type-SameSocket :
      (d : HttpConn) → SameSocket c d → Allows (Answers c) (add_content_type d)
  unfolding add_content_type
  add_content_type-SameSocket d h =
      Allows-if d.is_json (add_response-SameSocket d _ h)
        (Allows-any (string_at d d.url) λ url. add_response-SameSocket d _ h)

  add_cookie-SameSocket : (d : HttpConn) → SameSocket c d → Allows (SameSocket c) (add_cookie d)
  unfolding add_cookie
  add_cookie-SameSocket d h =
      Allows-if (d.set_cookie == 1)
        (Allows-bind (add_response-SameSocket d cookie_line h) λ x k. allows k) (allows h)

  add_headers-SameSocket :
      (d : HttpConn) (n : ℤ) → SameSocket c d → Allows (SameSocket c) (add_headers d n)
  unfolding add_headers
  add_headers-SameSocket d n h = Allows-bind (add_response-SameSocket d _ h) λ x1 h1.
      Allows-bind (add_content_type-SameSocket x1.1 h1) λ x2 h2.
        Allows-bind (add_response-SameSocket x2.1 _ h2) λ x3 h3.
          Allows-bind (add_cookie-SameSocket x3.1 h3)
            λ d4 h4. Allows-bind (add_response-SameSocket d4 _ h4) λ x5 h5. allows h5

  add_page-SameSocket :
      (d : HttpConn) (body : List ℕ) → SameSocket c d → Allows (Answers c) (add_page d body)
  unfolding add_page
  add_page-SameSocket d body h =
      Allows-bind (add_headers-SameSocket d (to_int (pos (length body))) h)
        λ e k. add_response-SameSocket e body k

  -- What is sent does not touch the socket.
  sent_or_not :
      (x : Bool × HttpConn)
      → Answers c x
      → Answers c (if x.0 then (true, send_buffer x.1) else (false, x.1))
  sent_or_not (true, d) h = h
  sent_or_not (false, d) h = h

pub process_write-SameSocket :
    (c : HttpConn) (code : HttpCode) → Allows (Answers c) (process_write c code)
unfolding process_write answer_page answer_file
process_write-SameSocket c no_request = allows refl
process_write-SameSocket c bad_request = allows refl
process_write-SameSocket c closed_connection = allows refl
process_write-SameSocket c internal_error =
    Allows-bind (add_response-SameSocket c c _ refl) λ x h. allows h
process_write-SameSocket c no_resource =
    Allows-bind (add_response-SameSocket c c _ refl) λ x h. allows h
process_write-SameSocket c forbidden_request =
    Allows-bind (add_response-SameSocket c c _ refl) λ x h. allows h
process_write-SameSocket c get_request =
    Allows-bind (add_response-SameSocket c c _ refl)
      λ x h. Allows-bind (add_page-SameSocket c x.1 _ h) λ y k. allows (sent_or_not c y k)
process_write-SameSocket c file_request = Allows-bind (add_response-SameSocket c c _ refl) λ x h.
    Allows-if (x.1.file_stat.st_size == 0)
      (Allows-bind (add_page-SameSocket c x.1 _ h) λ y k. allows k)
      (Allows-bind (add_headers-SameSocket c x.1 (to_int (pos x.1.file_stat.st_size)) h)
        λ e k. allows k)

-- What process leaves of a connection `c` and the shared state `w` that process_read has left with
-- the result `code`.
pub data Rearmed (code : HttpCode) (c : HttpConn) (w : World) : HttpConn → World → Type 0 where
  waiting : code ≡ no_request → Rearmed code c w c (call_epoll (epoll_mod_in c.sockfd) w)
  answering :
      {e : HttpConn} {u : World}
      → code ≢ no_request
      → process_write c code ≡ ok (true, e)
      → e.sockfd ≡ c.sockfd
      → u ≡ call_epoll (epoll_mod_out e.sockfd) w
      → Rearmed code c w e u
  closing :
      {d e : HttpConn} {u : World} (fd : ℕ)
      → code ≢ no_request
      → process_write c code ≡ ok (false, d)
      → e ≡ record d { sockfd = none }
      → c.sockfd ≡ some fd
      → u.closed ≡ fd ∷ w.closed
      → u.epoll ≡ epoll_mod_out none ∷ epoll_del (some fd) ∷ w.epoll
      → Rearmed code c w e u

abbrev pub Rearms : HttpCode → HttpConn → World → HttpConn × World → Type 0
Rearms code c w x = Rearmed code c w x.0 x.1

answered_or_closed :
    (code : HttpCode) (c : HttpConn) (w : World) (x : Bool × HttpConn) (fd : ℕ)
    → code ≢ no_request
    → process_write c code ≡ ok x
    → c.sockfd ≡ some fd
    → Answers c x
    → let (e, v) = if x.0 then (x.1, w) else close_conn w x.1 in
      Rearmed code c w e (call_epoll (epoll_mod_out e.sockfd) v)
unfolding close_conn
answered_or_closed code c w (true, d) fd asked wrote live same = answering asked wrote same refl
answered_or_closed code c w (false, d) fd asked wrote live same =
    rw (same ∙ live) (closing fd asked wrote refl live refl refl)

no_request-is : (code : HttpCode) → is_no_request code ≡ true → code ≡ no_request
no_request-is no_request e = refl
no_request-is get_request e = cc
no_request-is bad_request e = cc
no_request-is no_resource e = cc
no_request-is forbidden_request e = cc
no_request-is file_request e = cc
no_request-is internal_error e = cc
no_request-is closed_connection e = cc

no_request-not : (code : HttpCode) → is_no_request code ≡ false → code ≢ no_request
no_request-not code asked e = cc (sym asked ∙ ap is_no_request e)

process_answer-Rearms :
    (code : HttpCode) (c : HttpConn) (w : World) (fd : ℕ)
    → code ≢ no_request
    → c.sockfd ≡ some fd
    → Allows (Rearms code c w) (process_answer w c code)
unfolding process_answer
process_answer-Rearms code c w fd asked live =
    wrote (process_write c code) refl (process_write-SameSocket c code)
  where
    wrote :
        (r : Run (Bool × HttpConn))
        → process_write c code ≡ r
        → Allows (Answers c) r
        → Allows (Rearms code c w) (
            r >>= λ (write_ret, d).
            let (e, v) = if write_ret then (d, w) else close_conn w d in
            ok (e, call_epoll (epoll_mod_out e.sockfd) v))
    wrote (ok x) ran (allows same) = allows (answered_or_closed code c w x fd asked ran live same)
    wrote fault ran h = faults

-- When process_read has returned for an open connection, process does one of three things, unless it
-- faults. If process_read returned NO_REQUEST, it asks for the next read event and leaves the
-- connection as it is. If it returned another code and process_write true, the answer is ready and it
-- asks for the write event. If it returned another code and process_write false, it takes the
-- descriptor off the epoll instance and closes it, once, and the event that it asks for then is for
-- descriptor -1.
pub process-Rearms :
    (sys : System) (w v : World) (c d : HttpConn) (code : HttpCode) (fd : ℕ)
    → process_read sys w c ≡ some (ok (code, d, v))
    → d.sockfd ≡ some fd
    → (r : Run (HttpConn × World)) × (process sys w c ≡ some r) × Allows (Rearms code d v) r
unfolding process serve_result
process-Rearms sys w v c d code fd ran live = rw ran (
  _,
  refl,
  Allows-test (is_no_request code) (λ e. allows (waiting (no_request-is code e)))
      λ e. process_answer-Rearms code d v fd (no_request-not code e) live,
)
