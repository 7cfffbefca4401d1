-- ===== src/Http/Tests/Answers.antt =====
-- Witnesses of the theorems on the answer, the life of a connection and its traffic.
use tiny_web_server_learning.Prelude.{
  ◌≡◌, refl, ap, ◌<◌, ◌+◌, ◌∷◌, [], ◌++◌, codes, ℕ, zero, suc, List, arith, length, true, false,
  some, none, inr, ltb, if◌then◌else◌,
}
use tiny_web_server_learning.Prelude.Int.{pos}
use tiny_web_server_learning.Memory.{Run, ok, Returns, c_string}
use tiny_web_server_learning.Memory.Partial.{Allows}
use tiny_web_server_learning.CString.{to_int, strrchr, strcasecmp_eq}
use tiny_web_server_learning.Http.Types.{
  HttpConn, no_request, get_request, file_request, write_buffer, mapped_file, mapped, read_buf,
}
use tiny_web_server_learning.Http.World.{World, epoll_add, epoll_del}
use tiny_web_server_learning.Http.Line.{parse_line}
use tiny_web_server_learning.Http.Request.{login_success, string_at}
use tiny_web_server_learning.Http.Reader.{process_read}
use tiny_web_server_learning.CString.Print.{decimal_before}
use tiny_web_server_learning.Http.Response.{add_response, process_write, url_type, type_of_suffix}
use tiny_web_server_learning.Http.Response.Append.{Holds, add_response-Returns}
use tiny_web_server_learning.Http.Response.Answers.{
  json_answer, process_write-json, process_write-file, ok_line,
}
use tiny_web_server_learning.Http.Response.Page.{headers_text}
use tiny_web_server_learning.Http.Conn.{init, close_conn, process}
use tiny_web_server_learning.Http.Conn.Life.{close_conn-init}
use tiny_web_server_learning.Http.Conn.Process.{Rearms, process-Rearms}
use tiny_web_server_learning.Http.Transfer.{
  RecvResult, received, recv_again, WritevResult, written, read_once, write,
}
use tiny_web_server_learning.Http.Transfer.Receive.{TookIn, FitsRequest, read_once-TookIn}
use tiny_web_server_learning.Http.Transfer.Send.{Wrote, write-Wrote, Progress, count}
use tiny_web_server_learning.Http.Samples.{
  fresh_conn, receiving, sample_system, sample_world, buffer_of,
}

fresh-Holds : Holds fresh_conn []
fresh-Holds = record { room = refl; index = refl; short = omega arith; bytes = tt }

add_response-Returns_example :
    Returns
      (λ (fits, d).
        (fits ≡ ltb (length {A = ℕ} [] + length (codes "hi")) 1023)
        × Holds d (if fits then [] ++ codes "hi" else []))
      (add_response fresh_conn (codes "hi"))
add_response-Returns_example = add_response-Returns fresh_conn [] (codes "hi") fresh-Holds

abbrev json_conn : HttpConn
json_conn = record fresh_conn { is_json = true; json_string = some login_success; set_cookie = 1 }

json-Holds : Holds json_conn []
json-Holds = record { room = refl; index = refl; short = omega arith; bytes = tt }

json-fits : length (json_answer json_conn login_success) < 1023
unfolding decimal_before to_int
json-fits = omega arith

process_write-json_example :
    Returns
      (λ (sent, d).
        (sent ≡ true)
        × Holds d (json_answer json_conn login_success)
        × (d.iv
            ≡ record {
              iov_base = write_buffer;
              iov_len = length (json_answer json_conn login_success);
            }
              ∷ []))
      (process_write json_conn get_request)
process_write-json_example =
    process_write-json json_conn login_success json-Holds refl refl json-fits

close_conn-init_example :
    let (d, v) = init sample_world fresh_conn 7 in
    let (e, u) = close_conn v d in
    (u.user_count ≡ pos 0)
    × (u.closed ≡ 7 ∷ [])
    × (u.epoll ≡ epoll_del (some 7) ∷ epoll_add 7 ∷ [])
    × (e.sockfd ≡ none)
    × (close_conn u e ≡ (e, u))
close_conn-init_example = close_conn-init sample_world fresh_conn 7

abbrev file_conn : HttpConn
file_conn = record (receiving (codes "/a.css" ++ 0 ∷ [])) {
  url = read_buf 0;
  file_stat = record { st_size = 5; s_iroth = true; s_isdir = false };
  file_address = mapped (codes "hello");
}

file-Holds : Holds file_conn []
file-Holds = record { room = refl; index = refl; short = omega arith; bytes = tt }

file-url : string_at file_conn file_conn.url ≡ ok (codes "/a.css")
unfolding string_at c_string
file-url = refl

abbrev file_answer : List ℕ
file_answer = ok_line ++ headers_text (to_int (pos 5)) (url_type (codes "/a.css")) false 0

file-fits : length file_answer < 1023
unfolding decimal_before to_int url_type strrchr type_of_suffix strcasecmp_eq
file-fits = omega arith

process_write-file_example :
    Returns
      (λ (sent, d).
        (sent ≡ true)
        × Holds d file_answer
        × (d.file_address ≡ mapped (codes "hello"))
        × (d.iv
            ≡ record { iov_base = write_buffer; iov_len = length file_answer }
              ∷ record { iov_base = mapped_file; iov_len = 5 }
              ∷ []))
      (process_write file_conn file_request)
process_write-file_example =
    process_write-file file_conn (url_type (codes "/a.css")) file-Holds
      (inr (refl, codes "/a.css", file-url, refl)) (omega arith) file-fits

abbrev idle_conn : HttpConn
idle_conn = record fresh_conn { sockfd = some 7 }

idle-read :
    process_read sample_system sample_world idle_conn
    ≡ some (ok (no_request, idle_conn, sample_world))
unfolding process_read parse_line
idle-read = refl

process-Rearms_example :
    (r : Run (HttpConn × World)) × (process sample_system sample_world idle_conn ≡ some r)
    × Allows (Rearms no_request idle_conn sample_world) r
process-Rearms_example =
    process-Rearms sample_system sample_world sample_world idle_conn idle_conn no_request 7
      idle-read refl

-- A socket that has one byte, in a buffer with room for two.
abbrev one_byte : ℕ → ℕ → RecvResult
one_byte zero (suc n) = received (b'G' ∷ [])
one_byte _ _ = recv_again

abbrev bytes_of : RecvResult → List ℕ
bytes_of (received s) = s
bytes_of _ = []

one_byte-FitsRequest : FitsRequest one_byte
one_byte-FitsRequest zero zero s is = cc is
one_byte-FitsRequest zero (suc n) s is = omega (arith, ap length (ap bytes_of is))
one_byte-FitsRequest (suc k) n s is = cc is

abbrev roomy_conn : HttpConn
roomy_conn = record fresh_conn { read_buf = buffer_of (0 ∷ 0 ∷ []) }

read_once-TookIn_example : TookIn roomy_conn (read_once one_byte roomy_conn)
read_once-TookIn_example =
    read_once-TookIn one_byte roomy_conn one_byte-FitsRequest
      (record { started = omega arith; scanned = omega arith; received = omega arith })

-- A socket that takes three bytes at a time.
abbrev by_threes : ℕ → WritevResult
by_threes k = written 3

by_threes-Progress : Progress by_threes
by_threes-Progress k n is = omega (arith, ap count is)

write-Wrote_example :
    Wrote by_threes sample_world file_conn (write by_threes sample_world file_conn)
write-Wrote_example = write-Wrote by_threes sample_world file_conn by_threes-Progress (omega arith)
