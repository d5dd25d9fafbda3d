-- ===== src/Http/SessionObserver/RoundTrip.antt =====
-- From a packet to its bytes and back: what `Serialize` writes, a session observer reads as the same
-- packet.
use tv_cast.Prelude.{
  ℕ, ◌+◌, ◌<◌, ◌^◌, ◌≡◌, ◌≢◌, refl, sym, ap, ◌∙◌, arith, [], ◌∷◌, ◌++◌, Option, none, some, true,
  ◌==◌, Bytes, codes, to_string, Map, lookup, IsSorted, length, length-append, pos, int_string, ok,
}
use mathlib.Core.Path.{subst}
use tv_cast.Net.{HandleStatus}
use tv_cast.Http.CParser.{HttpParserLib}
use tv_cast.Http.Packet.{
  Packet, PacketType, serialize, start_string, header_block, get_status_name, body_size,
}
use tv_cast.Http.Packet.Wire.{body_bytes}
use tv_cast.Http.Packet.Order.{insert_all, insert_all-IsSorted}
use tv_cast.Http.Packet.Reader.{serialize_lem}
use tv_cast.Http.Parser.{Parser, new, run, settle, parse}
use tv_cast.Http.Parser.Reading.{
  StartLine, request_line, status_line, start_text, fields_text, body_text, text, line_end,
  IsReportedWhole,
}
use tv_cast.Http.Parser.Building.{packet_of, BodyFits, IsProper, run-Reports, deliver-message_calls}
use tv_cast.Http.SessionObserver
use tv_cast.Http.SessionObserver.{SessionObserver, handle_packet, dispatch, handle_data, create}

-- A status has the name that the program writes for it.
abbrev pub IsNamed : StartLine → Type 0
IsNamed (request_line method url) = Unit {0}
IsNamed (status_line status name) = name ≡ get_status_name (pos status)

-- A body is announced by its length.
abbrev pub IsAnnounced : Map → Option Bytes → Type 0
IsAnnounced fields none = Unit {0}
IsAnnounced fields (some body) =
    lookup (codes "Content-Length") fields ≡ some (to_string (length body))

module _ (lib : HttpParserLib) where
  fields_text-header_block : (fields : Map) → fields_text lib fields ≡ header_block fields
  unfolding fields_text header_block
  fields_text-header_block [] = refl
  fields_text-header_block ((key, value) ∷ fields) =
      ap (λ rest. key ++ (codes ": " ++ (value ++ (13 ∷ 10 ∷ rest))))
        (fields_text-header_block fields)

  body_text-body_bytes : (body : Option Bytes) → body_text lib body ≡ body_bytes body
  body_text-body_bytes none = refl
  body_text-body_bytes (some b) = refl

  text-wire :
      (line : StartLine) (fields : Map) (body : Option Bytes)
      → text lib line fields body ≡ start_text lib line ++ (header_block fields ++ body_bytes body)
  text-wire line fields body =
      ap (λ (x : Bytes). start_text lib line ++ (x ++ body_text lib body))
        (fields_text-header_block fields)
      ∙ ap (λ (x : Bytes). start_text lib line ++ (header_block fields ++ x))
          (body_text-body_bytes body)

  body_bytes-size : (body : Option Bytes) → length (body_bytes body) ≡ body_size body
  body_bytes-size none = refl
  body_bytes-size (some b) = refl

  size-text :
      (line : StartLine) (fields : Map) (body : Option Bytes)
      → length (text lib line fields body)
        ≡ length (start_text lib line) + length (header_block fields) + body_size body
  size-text line fields body = omega (
    arith,
    ap length (text-wire line fields body),
    length-append (start_text lib line) (header_block fields ++ body_bytes body),
    length-append (header_block fields) (body_bytes body),
    body_bytes-size body,
  )

  body-ne_nil : (body : Option Bytes) → BodyFits body → body ≢ some []
  body-ne_nil none fits e = cc
  body-ne_nil (some []) fits e = absurd (omega arith)
  body-ne_nil (some (b ∷ bs)) fits e = cc

  start_string-start_text :
      (line : StartLine) (fields : Map) (body : Option Bytes)
      → IsNamed line
      → start_string lib (packet_of line fields body).kind (packet_of line fields body)
        ≡ start_text lib line
  unfolding start_string to_string int_string
  start_string-start_text (request_line method url) fields body named = refl
  start_string-start_text (status_line status name) fields body named = rw named refl

  start_text-pos : (line : StartLine) → 0 < length (start_text lib line)
  start_text-pos (request_line method url) = omega (
    arith,
    length-append (lib.http_method_str (pos method))
        (codes " " ++ (url ++ (codes " HTTP/1.1" ++ line_end))),
  )
  start_text-pos (status_line status name) = omega arith

  kind-ne_init :
      (line : StartLine) (fields : Map) (body : Option Bytes)
      → (packet_of line fields body).kind ≢ PacketType.init
  kind-ne_init (request_line method url) fields body e = cc
  kind-ne_init (status_line status name) fields body e = cc

  fields-packet_of :
      (line : StartLine) (fields : Map) (body : Option Bytes)
      → (packet_of line fields body).header_fields ≡ fields
  fields-packet_of (request_line method url) fields body = refl
  fields-packet_of (status_line status name) fields body = refl

  body-packet_of :
      (line : StartLine) (fields : Map) (body : Option Bytes)
      → (packet_of line fields body).body ≡ body
  body-packet_of (request_line method url) fields body = refl
  body-packet_of (status_line status name) fields body = refl

  pub serialize-text :
      (line : StartLine) (fields : Map) (body : Option Bytes)
      → IsNamed line
      → BodyFits body
      → length (text lib line fields body) < 2 ^ 32
      → serialize lib (packet_of line fields body) ≡ ok (some (text lib line fields body))
  serialize-text line fields body named fits bound =
      let p = packet_of line fields body in
      let start = start_string-start_text line fields body named in
      let same_fields = fields-packet_of line fields body in
      let same_body = body-packet_of line fields body in
      serialize_lem lib p.kind p refl (kind-ne_init line fields body)
        (rw start (start_text-pos line))
        (rw (start) (record {
          body_ne_nil = rw same_body (body-ne_nil body fits);
          size_bound = rw (same_fields, same_body) (omega (arith, size-text line fields body));
        }))
      ∙ ap (λ x. ok (some x))
          (rw (start, same_fields, same_body) (sym (text-wire line fields body)))

  -- Behind the library's calls.
  parsed :
      (n : ℕ) (wire : Bytes) (q : Parser) (packet : Packet) (c : lib.CState)
      → run
          (lib.http_parser_execute lib.http_parser_init wire)
          (record new { status = HandleStatus.part_received })
        ≡ ok (n, c, q)
      → n ≡ length wire
      → q.status ≡ HandleStatus.ok
      → q.packet ≡ packet
      → handle_data lib wire (create lib)
        ≡ ok (HandleStatus.ok, create lib, handle_packet packet ∷ [])
  unfolding handle_data parse settle create dispatch
  parsed n wire q packet c ran all done same =
      let taken : (length wire == n) ≡ true = ground arith in rw (ran, taken, done, same) refl

  measured :
      (line : StartLine) (fields : Map) (body : Option Bytes) (b : Bytes)
      (whole : IsReportedWhole lib line fields body)
      → IsAnnounced fields body
      → body ≡ some b
      → whole.length_of ≡ length b
  measured line fields none b whole announced is = absurd (cc is)
  measured line fields (some x) b whole announced is =
      let same : x ≡ b = cc is in whole.measures x refl announced ∙ ap length same

  -- The text of a message, read in one piece, is handed on as its packet, with the header fields in
  -- the order of a map.
  pub handle_data-text :
      (line : StartLine) (fields : Map) (body : Option Bytes)
      → IsReportedWhole lib line fields body
      → IsProper line
      → BodyFits body
      → IsAnnounced fields body
      → handle_data lib (text lib line fields body) (create lib)
        ≡ ok (
          HandleStatus.ok,
          create lib,
          handle_packet (packet_of line (insert_all fields []) body) ∷ [],
        )
  handle_data-text line fields body whole proper fits announced =
      let (q, accepted, done, same) =
        deliver-message_calls line fields body whole.length_of proper fits
          (λ b is. measured line fields body b whole announced is) in
      parsed _ (text lib line fields body) q (packet_of line (insert_all fields []) body)
        whole.after (run-Reports _ q whole.reports accepted) refl done same

  -- For a packet of HTTP/1.1, a request or a response whose status is not 0, with header fields in
  -- the order of a map, with no body or one of 1 to 65535 bytes that Content-Length announces, and
  -- with less than 2 ^ 32 bytes in all: if the run of the library on the text of this message makes
  -- one call for each string (http_parser.h also allows several), `Serialize` writes that text, and a
  -- session observer that reads its bytes in one piece hands on exactly the packet again.
  pub handle_data-serialize :
      (line : StartLine) (fields : Map) (body : Option Bytes)
      → IsReportedWhole lib line fields body
      → IsProper line
      → IsNamed line
      → IsSorted fields
      → BodyFits body
      → IsAnnounced fields body
      → length (text lib line fields body) < 2 ^ 32
      → (serialize lib (packet_of line fields body) ≡ ok (some (text lib line fields body)))
        × (handle_data lib (text lib line fields body) (create lib)
            ≡ ok (HandleStatus.ok, create lib, handle_packet (packet_of line fields body) ∷ []))
  handle_data-serialize line fields body whole proper named sorted fits announced bound = (
    serialize-text line fields body named fits bound,
    subst
        (λ m.
          SessionObserver.handle_data lib (text lib line fields body) (create lib)
          ≡ ok (HandleStatus.ok, create lib, handle_packet (packet_of line m body) ∷ []))
        (insert_all-IsSorted fields sorted)
        (handle_data-text line fields body whole proper fits announced),
  )
