-- ===== src/Http/Types.antt =====
-- The data of src/http_conn.h: the enumerations and the members of HttpConn. A member m_x is the
-- field x.
use tiny_web_server_learning.Prelude.{ℕ, Bool, List, Option}
use tiny_web_server_learning.Prelude.Int.{ℤ}
use tiny_web_server_learning.Memory.{Buffer}

pub data Method : Type 0 where
  get post head put delete trace options connect patch : Method

pub data CheckState : Type 0 where
  check_state_requestline check_state_header check_state_content : CheckState

pub data LineStatus : Type 0 where
  line_ok line_bad line_open : LineStatus

pub data HttpCode : Type 0 where
  no_request get_request bad_request no_resource forbidden_request file_request internal_error
        closed_connection :
      HttpCode

-- A `char*` member: null, an offset in m_read_buf, or a string literal of the program.
pub data CharPtr : Type 0 where
  null : CharPtr
  read_buf : ℕ → CharPtr
  literal : List ℕ → CharPtr

-- What the code reads of a `struct stat`: st_size, S_IROTH and S_ISDIR of st_mode.
pub record FileStat : Type 0 where
  pub st_size : ℕ
  pub s_iroth : Bool
  pub s_isdir : Bool

pub data IoBase : Type 0 where
  write_buffer mapped_file : IoBase

pub record IoVec : Type 0 where
  pub iov_base : IoBase
  pub iov_len : ℕ

-- m_file_address: null, MAP_FAILED, or a mapping with its bytes.
pub data FileAddress : Type 0 where
  no_file map_failed : FileAddress
  mapped : List ℕ → FileAddress

-- `sockfd` is none for -1;
-- `iv` holds the m_iv_count entries of m_iv.
pub record HttpConn : Type 0 where
  pub sockfd : Option ℕ
  pub read_buf : Buffer
  pub read_idx : ℕ
  pub checked_idx : ℕ
  pub start_line : ℕ
  pub write_buf : Buffer
  pub write_idx : ℕ
  pub check_state : CheckState
  pub method : Method
  pub real_file : Option (List ℕ)
  pub url : CharPtr
  pub version : CharPtr
  pub host : CharPtr
  pub content_length : ℤ
  pub linger : Bool
  pub file_address : FileAddress
  pub file_stat : FileStat
  pub iv : List IoVec
  pub string : CharPtr
  pub boundary : List ℕ
  pub is_multipart : Bool
  pub upload_filename : List ℕ
  pub set_cookie : ℕ
  pub cookie_is_login : Bool
  pub is_json : Bool
  pub json_string : Option (List ℕ)
