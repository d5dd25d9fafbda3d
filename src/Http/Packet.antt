-- ===== src/Http/Packet.antt =====
-- `Packet` of anet/http/packet.h and packet.cc.
pub mod Wire
pub mod Order
pub mod Throws
pub mod Fits
pub mod Reader
use tv_cast.Prelude.{
  ℕ, ◌+◌, ◌-◌, ◌%◌, ◌^◌, Bool, List, [], ◌∷◌, ◌++◌, Option, none, some, ltb, if◌then◌else◌, ◌==◌,
  length, replicate, memcpy_at, Bytes, codes, to_string, Map, insert, erase, ℤ, pos, negsuc,
  int_string, Result, ok, err, out_of_range, ◌>>=◌,
}
use tv_cast.Http.CParser.{HttpParserLib}
use tv_cast.Http.Tables.{status_map, name_in}

-- `enum class Status` and `enum class Method`: an `int`, which a cast may give any value.
abbrev pub Status : Type 0
Status = ℤ

abbrev pub Method : Type 0
Method = ℤ

-- `Status::INIT` and `Method::INIT`.
abbrev pub status_init : Status
status_init = negsuc 0

abbrev pub method_init : Method
method_init = negsuc 0

-- `Status::OK` and `Method::GET`, from the tables.
abbrev pub status_ok : Status
status_ok = pos 200

abbrev pub method_get : Method
method_get = pos 1

pub data PacketType : Type 0 where
  init : PacketType
  request : PacketType
  response : PacketType

abbrev pub max_body_length : ℕ
max_body_length = 2 ^ 16 - 1

pub record Packet : Type 0 where
  pub http_major : ℕ
  pub http_minor : ℕ
  pub status : Status
  pub method : Method
  pub kind : PacketType
  pub url : Bytes
  pub header_fields : Map
  pub body : Option Bytes

-- `Packet()`
abbrev pub empty : Packet
empty = record {
  http_major = 0;
  http_minor = 0;
  status = status_init;
  method = method_init;
  kind = init;
  url = [];
  header_fields = [];
  body = none;
}

-- `Init`
abbrev pub set_start : ℕ → ℕ → Status → Method → PacketType → Packet → Packet
set_start major minor status method kind p = record p {
  http_major = major;
  http_minor = minor;
  status = status;
  method = method;
  kind = kind;
}

abbrev pub set_url : Bytes → Packet → Packet
set_url url p = record p { url = url }

abbrev pub add_header_field : Bytes → Bytes → Packet → Packet
add_header_field key value p = record p { header_fields = insert key value p.header_fields }

abbrev pub remove_header_field : Bytes → Packet → Packet
remove_header_field key p = record p { header_fields = erase key p.header_fields }

abbrev pub assign_body : Option Bytes → Packet → Packet
assign_body body p = record p { body = body }

abbrev pub endl : Bytes
endl = b'\r' ∷ b'\n' ∷ []

-- `GetStatusName`
unfoldable pub get_status_name : Status → Bytes
unfolding name_in status_map
get_status_name status = name_in (codes "INVALID_STATUS") status status_map

-- What the loop writes to `header_stream`, and the empty line behind it.
unfoldable pub header_block : Map → Bytes
header_block [] = endl
header_block ((key, value) ∷ rest) = key ++ (codes ": " ++ (value ++ (endl ++ header_block rest)))

abbrev pub version : Packet → Bytes
version p = codes "HTTP/" ++ (to_string p.http_major ++ (codes "." ++ to_string p.http_minor))

-- `memcpy(&buffer->at(i), &src.at(0), src.size())`: `at` throws where there is no such element.
unfoldable pub copy_to : Bytes → ℕ → Bytes → Result Bytes
copy_to src i buffer = if ltb 0 (length src) then memcpy_at buffer i src else err out_of_range

-- The copy of `body_`, where it is there.
copy_body : Option Bytes → ℕ → Bytes → Result Bytes
copy_body none i buffer = ok buffer
copy_body (some body) i buffer = copy_to body i buffer

abbrev pub body_size : Option Bytes → ℕ
body_size none = 0
body_size (some body) = length body

-- The buffer of `size` bytes (a `uint32_t`) and the three copies.
unfoldable pub assemble : Bytes → Bytes → Option Bytes → Result Bytes
unfolding copy_body
assemble start headers body = do
  let size = (length start + length headers + body_size body) % 2 ^ 32
  b ← copy_to start 0 (replicate size 0)
  b' ← copy_to headers (length start) b
  copy_body body (length start + length headers) b'

module _ (lib : HttpParserLib) where
  open lib use {http_method_str}

  -- `start_string`, for a packet that is no `Type::INIT`.
  unfoldable pub start_string : PacketType → Packet → Bytes
  start_string init p = endl
  start_string request p =
      http_method_str p.method ++ (codes " " ++ (p.url ++ (codes " " ++ (version p ++ endl))))
  start_string response p =
      version p
      ++ (codes " " ++ (int_string p.status ++ (codes " " ++ (get_status_name p.status ++ endl))))

  serialize_as : PacketType → Packet → Result (Option Bytes)
  serialize_as init p = ok none
  serialize_as kind p = do
    buffer ← assemble (start_string kind p) (header_block p.header_fields) p.body
    ok (some buffer)

  -- `Serialize`; `none` is a null pointer.
  unfoldable pub serialize : Packet → Result (Option Bytes)
  unfolding serialize_as
  serialize p = serialize_as p.kind p
