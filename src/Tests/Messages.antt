-- ===== src/Tests/Messages.antt =====
-- Packets, and the parser of packets.
use tv_cast.Prelude.{
  ◌≡◌, ◌≢◌, refl, arith, [], ◌∷◌, some, Bytes, codes, lookup, int_string, ok, err, pos,
  undefined_behaviour, true, out_of_range, memcpy_at,
}
use tv_cast.Net.{HandleStatus}
use tv_cast.Http.CParser.{on_url, on_header_field, on_header_value, on_headers_complete, on_body}
use tv_cast.Http.Packet
use tv_cast.Http.Packet.{
  Packet, request, response, status_ok, status_init, method_init, method_get, set_start, set_url,
  add_header_field, assign_body, endl, header_block, start_string, get_status_name, serialize,
  assemble, max_body_length,
}
use tv_cast.Http.Packet.Reader.{read_message, read_message-serialize}
use tv_cast.Http.Parser.{Parser, new, handle_body, parse, handle, run, settle}
use tv_cast.Http.Parser.Safety.{parse_all, parse_all-new, in_head}
use tv_cast.Http.Parser.Body.{deliver}
use tv_cast.Http.Parser.Faults.{
  accepted, deliver-url-split, deliver-header_value-split, handle_body_first, deliver_second,
}
use tv_cast.Http.Parser.Outcome.{StatusOf, parse-status}
use tv_cast.Http.SessionObserver
use tv_cast.Http.SessionObserver.Lifetime.{HandledData, handle_data-Dispatched}
use tv_cast.Tests.Setup.{fields, lib, order}

parse_all-new_example :
    parse_all lib (codes "abc" ∷ codes "de" ∷ []) in_head new ≢ err undefined_behaviour
parse_all-new_example = parse_all-new lib order (codes "abc" ∷ codes "de" ∷ [])

handle_body_first_example :
    accepted (handle_body (some fields) (some (codes "ab")) (record new { content_length = 3 }))
    ≡ true
handle_body_first_example =
    handle_body_first fields (codes "ab") (record new { content_length = 3 }) refl refl
      (omega arith)

deliver_second_example :
    deliver
      (on_headers_complete (some fields) ∷ on_body (some fields) (some (codes "abc")) ∷ [])
      (record new { body_index = 4 })
    ≡ err out_of_range
deliver_second_example =
    deliver_second fields (codes "abc") (record new { body_index = 4 }) refl (omega arith)
      (omega arith) refl (omega arith) (omega arith)

deliver-url-split_example :
    (q : Parser) × (deliver (on_url (some (codes "/a")) ∷ on_url (some (codes "b")) ∷ []) new
      ≡ ok (pos 0, q))
    × (q.packet.url ≡ codes "b")
    × (q.packet.url ≢ codes "/ab")
deliver-url-split_example = deliver-url-split (codes "/a") (codes "b") new (λ e. cc e)

deliver-header_value-split_example :
    (q : Parser) × (deliver
        (on_header_field (some (codes "Host"))
          ∷ on_header_value (some (codes "a"))
          ∷ on_header_value (some (codes "b"))
          ∷ [])
        new
      ≡ ok (pos 0, q))
    × (lookup (codes "Host") q.packet.header_fields ≡ some (codes "b"))
deliver-header_value-split_example =
    deliver-header_value-split (codes "Host") (codes "a") (codes "b") new

-- What `Parse` makes of the bytes "abc".
abbrev parsed : Parser
parsed = record new {
  status = HandleStatus.ok;
  packet = record Packet.empty {
    http_major = 1;
    http_minor = 1;
    method = method_get;
    kind = request;
    url = codes "/";
    body = some (codes "abc");
  };
  body_index = 3;
  content_length = 3;
}

parse-abc : parse lib (codes "abc") in_head new ≡ ok (in_head, parsed)
unfolding parse run settle handle memcpy_at
parse-abc = refl

parse-status_example : StatusOf lib (codes "abc") in_head new in_head parsed
parse-status_example = parse-status lib (codes "abc") in_head new parse-abc

handle_data-Dispatched_example :
    HandledData lib
      (codes "abc")
      (SessionObserver.create lib)
      HandleStatus.ok
      (SessionObserver.create lib)
      (SessionObserver.handle_packet parsed.packet ∷ [])
unfolding SessionObserver.handle_data SessionObserver.dispatch SessionObserver.create
handle_data-Dispatched_example =
    handle_data-Dispatched lib (codes "abc") (SessionObserver.create lib) (rw parse-abc refl)

-- A response with two header fields and a body.
abbrev answer : Packet
answer = record Packet.empty {
  http_major = 1;
  http_minor = 1;
  status = status_ok;
  kind = response;
  header_fields = (codes "A", codes "b: c") ∷ (codes "D", []) ∷ [];
  body = some (codes "\r\nx");
}

read_message-serialize_example :
    (wire : Bytes) × (serialize lib answer ≡ ok (some wire))
    × (read_message 3 wire ≡ some (codes "HTTP/1.1 200 OK", answer.header_fields, codes "\r\nx"))
unfolding start_string get_status_name int_string header_block
read_message-serialize_example =
    read_message-serialize lib answer (codes "HTTP/1.1 200 OK") 3 (λ e. cc) refl (ground arith)
      (ground arith) (record { body_ne_nil = λ e. cc; size_bound = omega arith }) (omega arith)
