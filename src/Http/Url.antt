-- ===== src/Http/Url.antt =====
-- `Url` of anet/http/url.h and url.cc.
pub mod Values
use Prim.Native.Nat.{bit_and}
use tv_cast.Prelude.{
  ℕ, ◌+◌, ◌%◌, ◌^◌, Bool, false, not, [], ◌∷◌, ◌==◌, if◌then◌else◌, length, slice, Bytes, Map, at,
  Result, ok, err, out_of_range,
}
use tv_cast.Http.CParser.{
  UrlField, uf_schema, uf_host, uf_path, uf_query, uf_fragment, uf_userinfo, field_index, FieldData,
  HttpParserUrl, HttpParserLib,
}
use tv_cast.Http.Query.{parse_query}

pub record Url : Type 0 where
  pub schema : Bytes
  pub host : Bytes
  pub port : ℕ
  pub path : Bytes
  pub query : Bytes
  pub fragment : Bytes
  pub user_info : Bytes
  pub query_parameters : Map

-- `Url()`
abbrev pub empty : Url
empty = record {
  schema = [];
  host = [];
  port = 0;
  path = [];
  query = [];
  fragment = [];
  user_info = [];
  query_parameters = [];
}

-- `(0 != (field_set & (1 << field)))`
unfoldable pub is_set : ℕ → UrlField → Bool
is_set field_set field = not (bit_and field_set (2 ^ field_index field) == 0)

-- `GetString`; the characters from `off` on, `len` of them.
unfoldable pub get_string : HttpParserUrl → Bytes → UrlField → Bytes
unfolding is_set
get_string parser buffer field =
    if is_set parser.field_set field
    then slice (parser.field_data field).off
        ((parser.field_data field).off + (parser.field_data field).len) buffer
    else []

unfoldable pub get_query_parameter : Bytes → Url → Result Bytes
unfolding at
get_query_parameter key url = at key url.query_parameters

-- The body of `if (0 == result)`.
fill : HttpParserUrl → Bytes → Url → Url
fill parser str url =
    let query = get_string parser str uf_query in
    record {
      schema = get_string parser str uf_schema;
      host = get_string parser str uf_host;
      port = parser.port;
      path = get_string parser str uf_path;
      query = query;
      fragment = get_string parser str uf_fragment;
      user_info = get_string parser str uf_userinfo;
      query_parameters = parse_query query url.query_parameters;
    }

module _ (lib : HttpParserLib) where
  open lib use {http_parser_parse_url}

  -- `Url::Parse(str, url)`: `str.at(0)` throws on the empty string, and the length is a `uint16_t`.
  unfoldable pub parse : Bytes → Url → Result Url
  unfolding fill
  parse [] url = err out_of_range
  parse (c ∷ cs) url =
      let (result, parser) = http_parser_parse_url (c ∷ cs) (length (c ∷ cs) % 2 ^ 16) false in
      ok (if result == 0 then fill parser (c ∷ cs) url else url)

  -- `Url(str)`
  unfoldable pub of_string : Bytes → Result Url
  unfolding parse
  of_string str = parse str empty
