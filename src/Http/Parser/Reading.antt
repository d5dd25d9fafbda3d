-- ===== src/Http/Parser/Reading.antt =====
-- A whole message of HTTP/1.1 on the wire, and the calls that the library makes for it.
use tv_cast.Prelude.{
  ℕ, ◌≡◌, List, [], ◌∷◌, ◌++◌, Option, none, some, Bytes, codes, to_string, Map, lookup, length, ℤ,
  pos,
}
use tv_cast.Http.CParser.{
  Callback, on_message_begin, on_url, on_status, on_header_field, on_header_value,
  on_headers_complete, on_body, on_message_complete, ParserFields, Run, done, call, HttpParserLib,
}

-- A method with a URL, or a status with its name.
pub data StartLine : Type 0 where
  request_line : ℕ → Bytes → StartLine
  status_line : ℕ → Bytes → StartLine

abbrev pub line_end : Bytes
line_end = 13 ∷ 10 ∷ []

module _ (lib : HttpParserLib) where
  abbrev pub start_text : StartLine → Bytes
  start_text (request_line method url) =
      lib.http_method_str (pos method) ++ (codes " " ++ (url ++ (codes " HTTP/1.1" ++ line_end)))
  start_text (status_line status name) =
      codes "HTTP/1.1 " ++ (to_string status ++ (codes " " ++ (name ++ line_end)))

  unfoldable pub fields_text : Map → Bytes
  fields_text [] = line_end
  fields_text ((key, value) ∷ fields) =
      key ++ (codes ": " ++ (value ++ (line_end ++ fields_text fields)))

  abbrev pub body_text : Option Bytes → Bytes
  body_text none = []
  body_text (some body) = body

  abbrev pub text : StartLine → Map → Option Bytes → Bytes
  text line fields body = start_text line ++ (fields_text fields ++ body_text body)

-- What `struct http_parser` holds behind the header fields, for this value of `content_length`.
abbrev pub parser_fields : StartLine → ℕ → ParserFields
parser_fields (request_line method url) n = record {
  http_major = 1;
  http_minor = 1;
  status_code = 0;
  method = method;
  content_length = n;
}
parser_fields (status_line status name) n = record {
  http_major = 1;
  http_minor = 1;
  status_code = status;
  method = 0;
  content_length = n;
}

-- The calls for each part of a message.
abbrev pub start_calls : StartLine → List Callback
start_calls (request_line method url) = on_url (some url) ∷ []
start_calls (status_line status name) = on_status (some name) ∷ []

abbrev pub field_calls : Map → List Callback
field_calls [] = []
field_calls ((key, value) ∷ fields) =
    on_header_field (some key) ∷ on_header_value (some value) ∷ field_calls fields

abbrev pub body_calls : ParserFields → Option Bytes → List Callback
body_calls c none = []
body_calls c (some body) = on_body (some c) (some body) ∷ []

abbrev pub message_calls : StartLine → Map → Option Bytes → ℕ → List Callback
message_calls line fields body n =
    let c = parser_fields line n in
    on_message_begin
    ∷ (start_calls line
        ++ (field_calls fields
            ++ (on_headers_complete (some c) ∷ (body_calls c body ++ (on_message_complete ∷ [])))))

-- A run that makes these calls, as long as each of them returns 0, and then ends with `n` bytes
-- parsed and in this state.
pub data Reports {C : Type 0} (n : ℕ) (c : C) : List Callback → Run C → Type 0 where
  ends : Reports n c [] (done n c)
  calls :
      {e : Callback} {es : List Callback} {k : ℤ → Run C}
      → Reports n c es (k (pos 0))
      → Reports n c (e ∷ es) (call e k)

-- A run in which the library makes one call for each string of this message, in order, and parses all
-- of it. This is a condition on the run, which http_parser.h does not promise: a string may come in any
-- number of calls, and then the parser keeps its last piece. The length that it reads is announced by
-- Content-Length.
pub record IsReportedWhole (lib : HttpParserLib) (line : StartLine) (fields : Map)
    (body : Option Bytes) : Type 0 where
  pub length_of : ℕ
  pub after : lib.CState
  pub measures :
      (b : Bytes)
      → body ≡ some b
      → lookup (codes "Content-Length") fields ≡ some (to_string (length b))
      → length_of ≡ length b
  pub reports :
      Reports
        (length (text lib line fields body))
        after
        (message_calls line fields body length_of)
        (lib.http_parser_execute lib.http_parser_init (text lib line fields body))
