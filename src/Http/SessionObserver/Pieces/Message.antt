-- ===== src/Http/SessionObserver/Pieces/Message.antt =====
-- A whole message whose body arrives in several reads.
use tv_cast.Prelude.{
  ℕ, ◌%◌, ◌^◌, ◌<◌, ◌≤◌, ◌≡◌, refl, ap, ◌∙◌, arith, List, [], ◌∷◌, ◌++◌, none, some, length,
  length-append, Bytes, Map, pos, ok,
}
use tv_cast.Net.{HandleStatus}
use tv_cast.Http.CParser.{on_message_begin, on_headers_complete, ParserFields, HttpParserLib}
use tv_cast.Http.Packet.{max_body_length}
use tv_cast.Http.Packet.Order.{insert_all}
use tv_cast.Http.Parser.{Parser, new, handle, start_packet}
use tv_cast.Http.Parser.Body.{deliver, joined, AllNonempty, allocate_blank}
use tv_cast.Http.Parser.Reading.{
  request_line, status_line, StartLine, parser_fields, start_calls, field_calls, Reports,
}
use tv_cast.Http.Parser.Building.{
  packet_of, IsProper, run-Reports, begun, with_fields, deliver-start_calls, deliver-field_calls,
  start_packet-fields, parser_fields-content_length,
}
use tv_cast.Http.SessionObserver.{handle_packet, dispatch, create}
use tv_cast.Http.SessionObserver.Pieces.{
  feed, ReportsBody, observing, taken, feed-cons, feed-ReportsBody,
}

module _ (lib : HttpParserLib) where
  packet_of-body :
      (line : StartLine) (fields : Map) (body : Bytes)
      → record (packet_of line fields none) { body = some body } ≡ packet_of line fields (some body)
  packet_of-body (request_line method url) fields body = refl
  packet_of-body (status_line status name) fields body = refl

  deliver-headers :
      (c : ParserFields) (p : Parser)
      → deliver (on_headers_complete (some c) ∷ []) p
        ≡ ok (
          pos 0,
          record p { packet = start_packet c p.packet; content_length = c.content_length % 2 ^ 32 },
        )
  unfolding deliver handle
  deliver-headers c p = refl

  -- If the library reports a request, or a response whose status is not 0, with its header fields
  -- in one read, and the pieces of its body with the reads behind it, none of them empty and as
  -- long together as the 1 to 65535 bytes of `content_length`, then a session observer that had
  -- no message in progress hands on one packet, when the last piece has been read: that of the
  -- message, with its header fields in the order of a map and the pieces joined as its body. It
  -- has then no message in progress again.
  pub feed-message :
      (line : StartLine) (fields : Map) (head piece : Bytes) (pieces : List Bytes) (n : ℕ)
      (s : lib.CState)
      → Reports
          (length head)
          s
          (on_message_begin
            ∷ (start_calls line
                ++ (field_calls fields
                    ++ (on_headers_complete (some (parser_fields line n)) ∷ []))))
          (lib.http_parser_execute lib.http_parser_init head)
      → ReportsBody lib (parser_fields line n) s (piece ∷ pieces)
      → IsProper line
      → AllNonempty (piece ∷ pieces)
      → length (joined (piece ∷ pieces)) ≡ n
      → n ≤ max_body_length
      → feed lib (head ∷ piece ∷ pieces) (create lib)
        ≡ ok (
          create lib,
          handle_packet (packet_of line (insert_all fields []) (some (joined (piece ∷ pieces))))
              ∷ [],
        )
  unfolding feed create dispatch
  feed-message line fields head piece pieces n s reports body proper full fits bound =
      let c = parser_fields line n in
      let p =
        with_fields fields
          (record new { status = HandleStatus.part_received; packet = begun line }) in
      let q = record p {
        packet = start_packet c p.packet;
        content_length = c.content_length % 2 ^ 32;
      } in
      let accepted =
        deliver-start_calls line _ ∙ deliver-field_calls fields _ _ ∙ deliver-headers c p in
      let ran =
        run-Reports (record new { status = HandleStatus.part_received }) q reports accepted in
      let size : c.content_length % 2 ^ 32 ≡ n =
        omega (arith, parser_fields-content_length line n) in
      let some_bytes : 0 < n = omega (arith, full.0, fits, length-append piece (joined pieces)) in
      let later =
        feed-ReportsBody lib [] n q body
          (record {
            buffer = rw size (allocate_blank n none refl some_bytes bound);
            index = refl;
            total = omega (arith, size);
            bound = omega (arith, size);
          })
          full fits in
      let packet = start_packet-fields line fields none n proper in
      feed-cons lib head (piece ∷ pieces) (create lib) (observing lib s q) (create lib) _ [] _
        (taken lib head (create lib) s q ran) later
      ∙ ap
          (λ m.
            ok
              (create lib, handle_packet (record m { body = some (joined (piece ∷ pieces)) }) ∷ []))
          packet
      ∙ ap (λ m. ok (create lib, handle_packet m ∷ []))
          (packet_of-body line (insert_all fields []) (joined (piece ∷ pieces)))
