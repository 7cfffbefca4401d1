-- ===== src/Http/Tests.antt =====
-- Runs of the request parser on small inputs, and witnesses of the theorems.
mod Requests
mod Answers
mod Uploads
mod Whole
use tiny_web_server_learning.Prelude.{
  ◌≡◌, refl, ◌≢◌, ◌+◌, ◌≤◌, ◌<◌, ◌∷◌, [], ◌++◌, codes, ℕ, zero, suc, List, arith, length, true, inl,
  inr,
}
use tiny_web_server_learning.Memory.{
  Run, ok, ◌>>=◌, Returns, c_string, slice, store, load, strcpy, IsString,
}
use tiny_web_server_learning.CString.{
  strpbrk, contains, strcasecmp_eq, strspn, strncasecmp_eq, same_bytes,
}
use tiny_web_server_learning.Http.Types.{
  HttpConn, HttpCode, no_request, line_ok, line_open, get, read_buf,
}
use tiny_web_server_learning.Http.Line.{parse_line}
use tiny_web_server_learning.Http.Line.Scan.{
  InBounds, IsPlain, Scanned, cut_line, parse_line-Scanned,
}
use tiny_web_server_learning.Http.Line.Resume.{
  parse_line_whole, parse_line_resume, Received, receive,
}
use tiny_web_server_learning.Http.RequestLine.{parse_request_line}
use tiny_web_server_learning.Http.RequestLine.Inside.{Outcome}
use tiny_web_server_learning.Http.RequestLine.Frame.{parse_request_line-Outcome}
use tiny_web_server_learning.Http.RequestLine.Accept.{
  IsWord, Names, request_line, Taken, parse_request_line-Taken,
}
use tiny_web_server_learning.Http.Samples.{receiving, buffer_of}

abbrev url_of : Run (HttpCode × HttpConn) → Run (HttpCode × List ℕ)
url_of r = do (code, c) ← r; ok (code, slice c.read_buf 0 31)

get_root :
    url_of
      (parse_request_line (receiving (codes "GET / HTTP/1.1" ++ 0 ∷ 0 ∷ codes "Host: abcdefghi")) 0)
    ≡ ok (no_request, codes "GET" ++ 0 ∷ codes "/index.html" ++ 0 ∷ codes "Host: abcdefghi")
unfolding parse_request_line c_string strpbrk contains store strcasecmp_eq strspn strncasecmp_eq
    load strcpy
get_root = refl

-- A short line, and one that has not arrived in full.
abbrev short_line : HttpConn
short_line = receiving (codes "Hi" ++ 13 ∷ 10 ∷ [])

abbrev half_line : HttpConn
half_line = record short_line { read_idx = 1 }

short_line-InBounds : InBounds short_line
short_line-InBounds = record {
  started = omega arith;
  scanned = omega arith;
  received = omega arith;
}

half_line-InBounds : InBounds half_line
half_line-InBounds = record { started = omega arith; scanned = omega arith; received = omega arith }

parse_line-Scanned_example : Returns (Scanned short_line) (parse_line short_line)
parse_line-Scanned_example = parse_line-Scanned short_line short_line-InBounds

half_line-open : parse_line half_line ≡ ok (line_open, record half_line { checked_idx = 1 })
unfolding parse_line load
half_line-open = refl

parse_line_resume_example :
    parse_line (receive (record half_line { checked_idx = 1 }) short_line.read_buf 4)
    ≡ parse_line (receive half_line short_line.read_buf 4)
parse_line_resume_example =
    parse_line_resume half_line (record half_line { checked_idx = 1 }) short_line.read_buf 4
      half_line-InBounds half_line-open
      (record { same = λ j lo. refl; more = omega arith; fits = omega arith })

abbrev get_line : List ℕ
get_line = request_line (codes "GET") (codes "/a.html")

abbrev get_conn : HttpConn
get_conn = receiving (get_line ++ 0 ∷ 0 ∷ codes "Host: h")

get_conn-IsString : IsString get_conn.read_buf 0 get_line
get_conn-IsString = record { inside = omega arith; spells = omega arith }

parse_request_line-Outcome_example :
    Returns (Outcome get_conn 0 (0 + length get_line + 1)) (parse_request_line get_conn 0)
parse_request_line-Outcome_example =
    parse_request_line-Outcome get_conn 0 get_line get_conn-IsString (omega arith)

parse_request_line-Taken_example :
    Returns (Taken get (codes "/a.html") 20) (parse_request_line get_conn 0)
unfolding contains strcasecmp_eq
parse_request_line-Taken_example =
    parse_request_line-Taken get_conn 0 (codes "GET") get b'a' (codes ".html")
      (refl, (refl, (refl, tt))) (inl (refl, refl))
      (refl, (refl, (refl, (refl, (refl, (refl, tt)))))) get_conn-IsString
