-- ===== src/Http/CParser.antt =====
-- What the program uses of anet/extra/http_parser: its URL parser, and its message parser, which
-- calls back while it reads. The library itself is a parameter, `HttpParserLib`.
use tv_cast.Prelude.{ℕ, Bool, Option, Bytes, ℤ}

-- `enum http_parser_url_fields`
pub data UrlField : Type 0 where
  uf_schema uf_host uf_port uf_path uf_query uf_fragment uf_userinfo : UrlField

abbrev pub field_index : UrlField → ℕ
field_index uf_schema = 0
field_index uf_host = 1
field_index uf_port = 2
field_index uf_path = 3
field_index uf_query = 4
field_index uf_fragment = 5
field_index uf_userinfo = 6

pub record FieldData : Type 0 where
  pub off : ℕ
  pub len : ℕ

-- `struct http_parser_url`
pub record HttpParserUrl : Type 0 where
  pub field_set : ℕ
  pub port : ℕ
  pub field_data : UrlField → FieldData

-- The public fields of `struct http_parser` that a callback reads.
pub record ParserFields : Type 0 where
  pub http_major : ℕ
  pub http_minor : ℕ
  pub status_code : ℕ
  pub method : ℕ
  pub content_length : ℕ

-- A call of one of the members of `http_parser_settings` that the program sets. `none` is a null
-- pointer; `some` carries the characters at `at` to `at + length`, or what the parser points to.
pub data Callback : Type 0 where
  on_message_begin : Callback
  on_url : Option Bytes → Callback
  on_status : Option Bytes → Callback
  on_header_field : Option Bytes → Callback
  on_header_value : Option Bytes → Callback
  on_headers_complete : Option ParserFields → Callback
  on_body : Option ParserFields → Option Bytes → Callback
  on_message_complete : Callback
  on_chunk_header : Callback

-- A run of `http_parser_execute`: it calls back, goes on by what the callback returned, and at
-- last returns how many bytes it parsed and the state that it leaves in `struct http_parser`.
pub data Run (C : Type 0) : Type 0 where
  done : ℕ → C → Run C
  call : Callback → (ℤ → Run C) → Run C

pub record HttpParserLib : Type 1 where
  pub CState : Type 0
  -- `http_parser_init(parser, HTTP_BOTH)`
  pub http_parser_init : CState
  pub http_parser_execute : CState → Bytes → Run CState
  -- `http_parser_parse_url(buf, buflen, is_connect, u)`: its result and what it writes to `u`.
  pub http_parser_parse_url : Bytes → ℕ → Bool → ℕ × HttpParserUrl
  -- `http_method_str`
  pub http_method_str : ℤ → Bytes
