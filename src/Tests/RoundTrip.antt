-- ===== src/Tests/RoundTrip.antt =====
-- A packet through its bytes and back.
use tv_cast.Prelude.{
  ap, ◌≡◌, refl, arith, [], ◌∷◌, ◌++◌, Option, some, Bytes, codes, Map, lookup, bytes_eq, length,
  drop, ok, to_string,
}
use tv_cast.Net.{HandleStatus}
use tv_cast.Http.CParser.{
  Run, done, call, HttpParserLib, on_message_begin, on_url, on_header_field, on_header_value,
  on_headers_complete, on_body, on_message_complete,
}
use tv_cast.Http.Packet.{serialize}
use tv_cast.Http.Parser.Safety.{Phase, in_head, in_body}
use tv_cast.Http.Parser.Reading.{
  StartLine, request_line, fields_text, ends, calls, IsReportedWhole, body_text,
}
use tv_cast.Http.Parser.Building.{packet_of}
use tv_cast.Http.SessionObserver.{handle_packet, handle_data, create}
use tv_cast.Http.SessionObserver.RoundTrip.{handle_data-serialize}
use tv_cast.Tests.Setup
use tv_cast.Tests.Setup.{fields}

abbrev pub get_line : StartLine
get_line = request_line 1 (codes "/")

abbrev pub three_bytes : Map
three_bytes = (codes "Content-Length", codes "3") ∷ []

-- A library that knows one start line and one header field, with any body of three bytes.
abbrev execute : Phase → Bytes → Run Phase
execute in_body buffer = done 0 in_body
execute in_head buffer = call on_message_begin (λ a. call (on_url (some (codes "/"))) (λ b.
    call (on_header_field (some (codes "Content-Length"))) (λ c.
      call (on_header_value (some (codes "3"))) (λ d. call (on_headers_complete (some fields)) (λ e.
        call (on_body (some fields) (some (drop 37 buffer)))
          (λ f. call on_message_complete (λ g. done (length buffer) in_head)))))))

abbrev reader : HttpParserLib
reader = record {
  CState = Phase;
  http_parser_init = in_head;
  http_parser_execute = execute;
  http_parser_parse_url = Setup.lib.http_parser_parse_url;
  http_method_str = λ m. codes "GET";
}

abbrev three_letters : Option Bytes
three_letters = some (codes "abc")

reading : IsReportedWhole reader get_line three_bytes three_letters
unfolding fields_text
reading = record {
  length_of = 3;
  after = in_head;
  measures = λ b is announced. ap (λ o. length (body_text reader o)) is;
  reports = calls (calls (calls (calls (calls (calls (calls ends))))));
}

abbrev request_bytes : Bytes
request_bytes =
    codes "GET / HTTP/1.1"
    ++ (13 ∷ 10 ∷ codes "Content-Length: 3")
    ++ (13 ∷ 10 ∷ 13 ∷ 10 ∷ codes "abc")

handle_data-serialize_example :
    (serialize reader (packet_of get_line three_bytes (some (codes "abc")))
      ≡ ok (some request_bytes))
    × (handle_data reader request_bytes (create reader)
        ≡ ok (
          HandleStatus.ok,
          create reader,
          handle_packet (packet_of get_line three_bytes (some (codes "abc"))) ∷ [],
        ))
unfolding fields_text to_string lookup bytes_eq
handle_data-serialize_example =
    handle_data-serialize reader get_line three_bytes three_letters reading tt tt (tt, tt)
      (omega arith, omega arith) refl (omega arith)
