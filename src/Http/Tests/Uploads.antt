-- ===== src/Http/Tests/Uploads.antt =====
-- A small upload: the theorem on uploads at a concrete input.
use tiny_web_server_learning.Prelude.{arith, ◌≡◌, refl, true, List, ℕ, [], ◌∷◌, ◌++◌, codes}
use tiny_web_server_learning.Prelude.Int.{pos}
use tiny_web_server_learning.Memory.{ok, fault, c_string}
use tiny_web_server_learning.CString.{strstr, strchr, same_bytes, starts_with}
use tiny_web_server_learning.Http.Types.{HttpConn, get_request, literal}
use tiny_web_server_learning.Http.World.{World}
use tiny_web_server_learning.Http.Content.{
  parse_upload, parse_multipart_content, find_footer, memcmp_eq,
}
use tiny_web_server_learning.Http.Content.Saved.{footer, parse_upload-saves}
use tiny_web_server_learning.Http.Request.{do_request}
use tiny_web_server_learning.Http.Request.Upload.{do_request-parse_multipart_content}
use tiny_web_server_learning.Http.Samples.{fresh_conn, buffer_of, sample_system, sample_world}

abbrev crlf : List ℕ
crlf = 13 ∷ 10 ∷ []

-- One byte of data, in a part with an empty boundary.
abbrev body : List ℕ
body =
    codes "--"
    ++ (crlf
        ++ (codes "filename=\"a\""
            ++ (crlf ++ (crlf ++ (b'D' ∷ (crlf ++ (codes "----" ++ 0 ∷ [])))))))

abbrev upload_conn : HttpConn
upload_conn = record fresh_conn {
  read_buf = buffer_of body;
  is_multipart = true;
  content_length = pos 27;
}

abbrev uploaded_conn : HttpConn
uploaded_conn = record upload_conn {
  url = literal (codes "/welcome.html");
  upload_filename = codes "a";
}

abbrev uploaded_world : World
uploaded_world = record sample_world { files = (codes "resources/upload_a", b'D' ∷ []) ∷ [] }

saved :
    parse_multipart_content sample_system sample_world upload_conn 0
    ≡ ok (get_request, uploaded_conn, uploaded_world)
unfolding parse_multipart_content find_footer memcmp_eq c_string strstr strchr same_bytes
saved = refl

do_request-parse_multipart_content_example :
    do_request sample_system uploaded_world uploaded_conn ≡ fault
do_request-parse_multipart_content_example =
    do_request-parse_multipart_content sample_system sample_world uploaded_world upload_conn
      uploaded_conn 0 saved refl

-- A file of one byte, with the footer behind it.
abbrev file_conn : HttpConn
file_conn = record fresh_conn {
  read_buf = buffer_of (b'D' ∷ footer (codes "--ab"));
  boundary = codes "ab";
  content_length = pos 7;
  upload_filename = codes "a";
}

parse_upload-saves_example :
    parse_upload sample_system sample_world file_conn 0 0
    ≡ ok (
      get_request,
      record file_conn { url = literal (codes "/welcome.html") },
      record sample_world { files = (codes "resources/upload_a", b'D' ∷ []) ∷ [] },
    )
unfolding starts_with
parse_upload-saves_example =
    parse_upload-saves sample_system sample_world file_conn 0 0 7 (b'D' ∷ []) refl
      (refl, (refl, (refl, (refl, (refl, (refl, (refl, tt))))))) (refl, tt) (omega arith)
      (omega arith) (omega arith) refl
