-- ===== src/Tests/Pieces.antt =====
-- A message in three reads.
use tv_cast.Prelude.{ℕ, zero, suc, ◌≡◌, refl, arith, [], ◌∷◌, some, Bytes, codes, length, ok}
use tv_cast.Http.CParser.{
  Run, done, call, HttpParserLib, on_message_begin, on_url, on_header_field, on_header_value,
  on_headers_complete, on_body, on_message_complete,
}
use tv_cast.Http.Packet.Order.{insert_all}
use tv_cast.Http.Parser.Reading.{ends, calls}
use tv_cast.Http.Parser.Building.{packet_of}
use tv_cast.Http.SessionObserver.{handle_packet, create}
use tv_cast.Http.SessionObserver.Pieces.{feed, one_piece, last_piece}
use tv_cast.Http.SessionObserver.Pieces.Message.{feed-message}
use tv_cast.Tests.Setup
use tv_cast.Tests.Setup.{fields}
use tv_cast.Tests.RoundTrip.{get_line, three_bytes}

-- A library that takes the first read for a request's header fields, and the next two for its body.
abbrev execute : ℕ → Bytes → Run ℕ
execute zero buffer = call on_message_begin (λ a. call (on_url (some (codes "/"))) (λ b.
    call (on_header_field (some (codes "Content-Length"))) (λ c.
      call (on_header_value (some (codes "3")))
        (λ d. call (on_headers_complete (some fields)) (λ e. done (length buffer) 1)))))
execute (suc zero) buffer = call (on_body (some fields) (some buffer)) (λ a. done (length buffer) 2)
execute (suc (suc n)) buffer =
    call (on_body (some fields) (some buffer))
      (λ a. call on_message_complete (λ b. done (length buffer) 0))

abbrev staged : HttpParserLib
staged = record {
  CState = ℕ;
  http_parser_init = 0;
  http_parser_execute = execute;
  http_parser_parse_url = Setup.lib.http_parser_parse_url;
  http_method_str = λ m. codes "GET";
}

feed-message_example :
    feed staged (codes "head" ∷ codes "a" ∷ codes "bc" ∷ []) (create staged)
    ≡ ok (
      create staged,
      handle_packet (packet_of get_line (insert_all three_bytes []) (some (codes "abc"))) ∷ [],
    )
feed-message_example =
    feed-message staged get_line three_bytes (codes "head") (codes "a") (codes "bc" ∷ []) 3 1
      (calls (calls (calls (calls (calls ends)))))
      (one_piece (calls ends) (last_piece (calls (calls ends)))) tt (omega arith, (omega arith, tt))
      refl (omega arith)
