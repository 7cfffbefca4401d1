-- ===== src/Http/Conn/Fresh.antt =====
-- The first request after HttpConn::init_parse_state.
use tiny_web_server_learning.Prelude.{ℕ, ◌≡◌, false, List, [], none}
use tiny_web_server_learning.Prelude.Int.{pos}
use tiny_web_server_learning.Memory.{Buffer, IsString}
use tiny_web_server_learning.Memory.Bytes.{Bytes}
use tiny_web_server_learning.Http.Types.{HttpConn, Method, null, no_file, read_buf}
use tiny_web_server_learning.Http.World.{World}
use tiny_web_server_learning.Http.Headers.Named.{Header}
use tiny_web_server_learning.Http.Headers.Sets.{keeps_alive, logged_in, multipart}
use tiny_web_server_learning.Http.Conn.{init_parse_state}
use tiny_web_server_learning.Http.Reader.Block.{says, last_length}

-- The connection has what this request says, and nothing of one before it.
pub record AsksOnly (m : Method) (path : List ℕ) (hs : List Header) (c d : HttpConn) : Type 0 where
  pub method : d.method ≡ m
  pub place : ℕ
  pub points : d.url ≡ read_buf place
  pub spelled : IsString d.read_buf place path
  pub linger : d.linger ≡ says (λ h. keeps_alive h.name h.value) hs
  pub stated : d.content_length ≡ last_length (pos 0) hs
  pub login : d.cookie_is_login ≡ says (λ h. logged_in h.name h.value) hs
  pub multi : d.is_multipart ≡ says (λ h. multipart h.name h.value) hs
  pub body : d.string ≡ null
  pub json : (d.is_json ≡ false) × (d.json_string ≡ none)
  pub cookie : d.set_cookie ≡ 0
  pub filename : d.upload_filename ≡ []
  pub file : d.file_address ≡ no_file
  pub answer : d.write_idx ≡ 0
  pub socket : d.sockfd ≡ c.sockfd

-- What read_once has put into a connection that was reset.
abbrev pub received_by : HttpConn → Buffer → ℕ → HttpConn
received_by c b r = record (init_parse_state c) { read_buf = b; read_idx = r }
