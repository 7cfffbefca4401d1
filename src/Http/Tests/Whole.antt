-- ===== src/Http/Tests/Whole.antt =====
-- A whole request: the theorem on requests at a concrete input.
use tiny_web_server_learning.Prelude.{
  ◌≡◌, refl, arith, ℕ, ◌++◌, inl, inr, length, ◌∷◌, [], List, codes, some,
}
use tiny_web_server_learning.CString.{contains, strspn, strcasecmp_eq, to_lower, atol, to_int}
use tiny_web_server_learning.Http.Types.{HttpConn, get, post, read_buf}
use tiny_web_server_learning.Http.Headers.{connection, host, content_length}
use tiny_web_server_learning.Http.Headers.Named.{Header}
use tiny_web_server_learning.Http.Request.{do_request}
use tiny_web_server_learning.Http.Reader.{process_read}
use tiny_web_server_learning.Http.Reader.Block.{AreHeaders}
use tiny_web_server_learning.Prelude.Int.{pos}
use tiny_web_server_learning.Prelude.{true}
use tiny_web_server_learning.Http.Reader.Asked.{request, Asks}
use tiny_web_server_learning.Http.Reader.Whole.{process_read-Asks}
use tiny_web_server_learning.Http.Reader.Body.{process_read-body}
use tiny_web_server_learning.Memory.{IsString}
use tiny_web_server_learning.Http.Samples.{receiving, sample_system, sample_world}

abbrev headers : List Header
headers =
    record { name = host; word = codes "Host:"; gap = codes " "; value = codes "h" }
    ∷ record { name = connection; word = codes "connection:"; gap = []; value = codes "Keep-Alive" }
    ∷ []

abbrev asking : HttpConn
asking = receiving (request (codes "GET") (codes "/a") headers)

headers-AreHeaders : AreHeaders headers
unfolding contains strspn to_lower
headers-AreHeaders = (
  (
    record {
      known = λ ne. refl;
      unknown = λ e. cc;
      nonempty = omega arith;
      blank = (refl, tt);
      starts = refl;
      room = λ e. cc;
    },
    omega arith,
  ),
  (
    (
      record {
        known = λ ne. refl;
        unknown = λ e. cc;
        nonempty = omega arith;
        blank = tt;
        starts = refl;
        room = λ e. cc;
      },
      omega arith,
    ),
    tt,
  ),
)

process_read-Asks_example :
    (d : HttpConn) × (process_read sample_system sample_world asking
      ≡ some (do_request sample_system sample_world d))
    × Asks get (codes "/a") headers asking d
unfolding contains strspn strcasecmp_eq to_lower
process_read-Asks_example =
    process_read-Asks sample_system sample_world asking (codes "GET") get b'a' [] headers
      (refl, (refl, (refl, tt))) (inl (refl, refl)) (refl, tt) (omega arith) headers-AreHeaders
      (record {
        state = refl;
        start = refl;
        received = omega arith;
        fits = omega arith;
        bytes = omega arith;
      })
      refl

-- The same request on a connection that was logged in, and was to be kept alive.
abbrev used : HttpConn
used = record asking {
  linger = true;
  cookie_is_login = true;
  content_length = pos 3;
  string = read_buf 1;
}

-- A request with a body of three bytes.
abbrev stating : List Header
stating =
    record {
      name = content_length;
      word = codes "Content-Length:";
      gap = codes " ";
      value = codes "3";
    }
    ∷ []

abbrev posting_text : List ℕ
posting_text = request (codes "POST") (codes "/2") stating ++ codes "a=b"

abbrev posting : HttpConn
posting = record (receiving (posting_text ++ 0 ∷ [])) { read_idx = length posting_text }

process_read-body_example :
    (d : HttpConn) × (p : ℕ) × (process_read sample_system sample_world posting
      ≡ some (do_request sample_system sample_world (record d { string = read_buf p })))
    × Asks post (codes "/2") stating posting d
    × IsString d.read_buf p (codes "a=b")
unfolding contains strspn strcasecmp_eq to_lower atol to_int
process_read-body_example =
    process_read-body sample_system sample_world posting (codes "POST") post b'2' [] stating b'a'
      (codes "=b") (refl, (refl, (refl, (refl, tt)))) (inr (refl, refl, refl)) (refl, tt)
      (omega arith)
      (
        (
          record {
            known = λ ne. refl;
            unknown = λ e. cc;
            nonempty = omega arith;
            blank = (refl, tt);
            starts = refl;
            room = λ e. cc;
          },
          omega arith,
        ),
        tt,
      )
      (record {
        state = refl;
        start = refl;
        received = omega arith;
        fits = omega arith;
        bytes = omega arith;
      })
      refl refl (omega arith) (omega arith) (omega arith)
