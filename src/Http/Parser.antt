-- ===== src/Http/Parser.antt =====
-- `Parser` of anet/http/parser.h and parser.cc: the callbacks that `http_parser` makes, and the
-- packet that they build. `VLOG` arguments are not evaluated at the level that main.cc sets.
pub mod Safety
pub mod Throws
pub mod Body
pub mod Faults
pub mod Outcome
pub mod Reading
pub mod Building
use tv_cast.Prelude.{
  ℕ, ◌+◌, ◌-◌, ◌%◌, ◌^◌, Bool, ◌&&◌, List, [], ◌∷◌, Option, none, some, ◌==◌, ltb, leb,
  if◌then◌else◌, length, replicate, memcpy_at, Bytes, codes, ℤ, pos, negsuc, eq_int, Result, ok,
  err, ◌>>=◌,
}
use tv_cast.Net.{HandleStatus}
use tv_cast.Http.CParser.{
  Callback, on_message_begin, on_url, on_status, on_header_field, on_header_value,
  on_headers_complete, on_body, on_message_complete, on_chunk_header, ParserFields, Run, done, call,
  HttpParserLib,
}
use tv_cast.Http.Tables.{status_map, method_map, errno_map, text_in}
use tv_cast.Http.Packet
use tv_cast.Http.Packet.{
  Packet, PacketType, request, response, Status, Method, status_init, method_init, max_body_length,
  set_start, set_url, add_header_field, assign_body,
}

-- `parser_` is apart, as the state `C` of the library.
pub record Parser : Type 0 where
  pub status : HandleStatus
  pub packet : Packet
  pub current_field : Bytes
  pub body : Option Bytes
  pub body_index : ℕ
  pub content_length : ℕ

-- `Parser()`
abbrev pub new : Parser
new = record {
  status = HandleStatus.error;
  packet = Packet.empty;
  current_field = [];
  body = none;
  body_index = 0;
  content_length = 0;
}

-- What a callback does: it returns an `int`, or throws.
abbrev pub Reply : Type 0
Reply = Result (ℤ × Parser)

abbrev pub accept : Parser → Reply
accept p = ok (pos 0, p)

abbrev pub reject : Parser → Reply
reject p = ok (negsuc 0, p)

pub handle_msg_begin : Parser → Reply
handle_msg_begin p = accept p

pub handle_url : Option Bytes → Parser → Reply
handle_url none p = reject p
handle_url (some url) p = accept (record p { packet = set_url url p.packet })

pub handle_status : Option Bytes → Parser → Reply
handle_status at p = accept p

pub handle_header_field : Option Bytes → Parser → Reply
handle_header_field none p = reject p
handle_header_field (some field) p = accept (record p { current_field = field })

pub handle_header_value : Option Bytes → Parser → Reply
handle_header_value none p = reject p
handle_header_value (some value) p =
    accept (record p { packet = add_header_field p.current_field value p.packet })

-- The packet's start line, from the fields of `http_parser`.
unfoldable pub start_packet : ParserFields → Packet → Packet
start_packet c packet =
    if c.status_code == 0
    then set_start c.http_major c.http_minor status_init (pos c.method) request packet
    else set_start c.http_major c.http_minor (pos c.status_code) method_init response packet

-- `content_length_` is a `uint32_t`, the library's field a `uint64_t`.
pub handle_header_complete : Option ParserFields → Parser → Reply
unfolding start_packet
handle_header_complete none p = reject p
handle_header_complete (some c) p =
    accept
      (record p { packet = start_packet c p.packet; content_length = c.content_length % 2 ^ 32 })

-- The buffer of `content_length_` bytes, where there is none and the length allows it.
pub allocate : ℕ → Option Bytes → Option Bytes
allocate content_length none =
    if ltb 0 content_length && leb content_length max_body_length
    then some (replicate content_length 0)
    else none
allocate content_length (some buffer) = some buffer

-- `content_length_ - body_index_` in `uint32_t`.
abbrev pub room : Parser → ℕ
room p = (p.content_length + 2 ^ 32 - p.body_index) % 2 ^ 32

-- The rest of `HandleBody`, once `body_` may have been allocated.
pub copy_body : Bytes → Option Bytes → Parser → Reply
copy_body chunk none p = reject p
copy_body chunk (some buffer) p =
    if ltb 0 (length chunk) && leb (length chunk) (room p)
    then (do
      buffer' ← memcpy_at buffer p.body_index chunk
      accept
          (record p { body = some buffer'; body_index = (p.body_index + length chunk) % 2 ^ 32 }))
    else reject (record p { body = some buffer })

pub handle_body : Option ParserFields → Option Bytes → Parser → Reply
unfolding allocate copy_body
handle_body none at p = reject p
handle_body (some c) none p = reject p
handle_body (some c) (some chunk) p = copy_body chunk (allocate p.content_length p.body) p

-- The body goes to the packet, where there is one.
finish_body : Option Bytes → Packet → Packet
finish_body none packet = packet
finish_body (some buffer) packet = assign_body (some buffer) packet

pub handle_msg_complete : Parser → Reply
unfolding finish_body
handle_msg_complete p =
    accept
      (record p { packet = finish_body p.body p.packet; body = none; status = HandleStatus.ok })

pub handle_header_chunk : Parser → Reply
handle_header_chunk p = accept (record p { status = HandleStatus.part_received })

-- `setting_`, with the static functions that find the `Parser` in `c_parser->data`.
unfoldable pub handle : Callback → Parser → Reply
unfolding handle_msg_begin handle_url handle_status handle_header_field handle_header_value
    handle_header_complete handle_body handle_msg_complete handle_header_chunk
handle on_message_begin p = handle_msg_begin p
handle (on_url at) p = handle_url at p
handle (on_status at) p = handle_status at p
handle (on_header_field at) p = handle_header_field at p
handle (on_header_value at) p = handle_header_value at p
handle (on_headers_complete c) p = handle_header_complete c p
handle (on_body c at) p = handle_body c at p
handle on_message_complete p = handle_msg_complete p
handle on_chunk_header p = handle_header_chunk p

module _ {C : Type 0} where
  -- `http_parser_execute` with these callbacks: the bytes parsed, and the states left.
  unfoldable pub run : Run C → Parser → Result (ℕ × C × Parser)
  run (done n c) p = ok (n, c, p)
  run (call e k) p = handle e p >>= λ (r, q). run (k r) q

-- `Parse`: what it leaves in `status_` it returns.
unfoldable pub settle : Bytes → ℕ → Parser → Parser
settle buffer n p = if length buffer == n then p else record p { status = HandleStatus.error }

module _ (lib : HttpParserLib) where
  open lib use {CState, http_parser_execute}

  unfoldable pub parse : Bytes → CState → Parser → Result (CState × Parser)
  parse buffer c p = do
    (n, c', q) ←
        run (http_parser_execute c buffer) (record p { status = HandleStatus.part_received })
    ok (c', settle buffer n q)

-- `GetErrString`, `GetStatusString` and `GetMethodString`.
pub get_err_string : ℕ → Bytes
unfolding text_in errno_map
get_err_string error = text_in (codes "INVALID_ERROR") (pos error) errno_map

pub get_status_string : ℕ → Bytes
unfolding text_in status_map
get_status_string status = text_in (codes "INVALID_STATUS") (pos status) status_map

pub get_method_string : ℕ → Bytes
unfolding text_in method_map
get_method_string method = text_in (codes "INVALID_METHOD") (pos method) method_map
