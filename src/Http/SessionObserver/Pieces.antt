-- ===== src/Http/SessionObserver/Pieces.antt =====
-- A message that a session reads piece by piece: the header fields, and then the body in any number
-- of reads.
pub mod Message
use tv_cast.Prelude.{
  ℕ, ◌+◌, ◌%◌, ◌^◌, ◌<◌, ◌≤◌, ◌≡◌, refl, sym, ap, ◌∙◌, arith, List, [], ◌∷◌, ◌++◌, append_assoc,
  append-nil, Option, none, some, true, ◌==◌, if◌then◌else◌, length, length-append, replicate,
  Bytes, Map, pos, eq_int, Result, ok, ◌>>=◌,
}
use mathlib.Core.Path.{subst}
use tv_cast.Net.{HandleStatus}
use tv_cast.Http.CParser.{
  Callback, on_message_begin, on_headers_complete, on_body, on_message_complete, ParserFields,
  HttpParserLib,
}
use tv_cast.Http.Packet.{Packet, max_body_length}
use tv_cast.Http.Packet.Order.{add_fields, insert_all}
use tv_cast.Http.Parser.{Parser, new, run, settle, parse, handle, allocate, start_packet}
use tv_cast.Http.Parser.Body.{
  allocate-some, deliver, joined, AllNonempty, completed, handle_body-append, deliver-bodies,
  allocate_blank,
}
use tv_cast.Http.Parser.Reading.{
  request_line, status_line, StartLine, parser_fields, start_calls, field_calls, Reports,
}
use tv_cast.Http.Parser.Building.{
  packet_of, IsProper, run-Reports, begun, with_fields, deliver-start_calls, deliver-field_calls,
  start_packet-fields, parser_fields-content_length,
}
use tv_cast.Http.SessionObserver
use tv_cast.Http.SessionObserver.{
  SessionObserver, Call, create_http_parser, handle_packet, dispatch, create,
}

module _ (lib : HttpParserLib) where
  -- What an observer calls over successive reads of its session.
  unfoldable pub feed : List Bytes → SessionObserver lib → Result (SessionObserver lib × List Call)
  feed [] o = ok (o, [])
  feed (bytes ∷ pieces) o = do
    (status, o', calls) ← SessionObserver.handle_data lib bytes o
    (o'', later) ← feed pieces o'
    ok (o'', calls ++ later)

  -- Pieces of a body that the library reports, each with one call and the last with the end of the
  -- message, from a state in which it has reported the header fields.
  pub data ReportsBody (c : ParserFields) : lib.CState → List Bytes → Type 0 where
    last_piece :
        {s s' : lib.CState} {piece : Bytes}
        → Reports
            (length piece)
            s'
            (on_body (some c) (some piece) ∷ on_message_complete ∷ [])
            (lib.http_parser_execute s piece)
        → ReportsBody c s (piece ∷ [])
    one_piece :
        {s s' : lib.CState} {piece : Bytes} {pieces : List Bytes}
        → Reports
            (length piece)
            s'
            (on_body (some c) (some piece) ∷ [])
            (lib.http_parser_execute s piece)
        → ReportsBody c s' pieces
        → ReportsBody c s (piece ∷ pieces)

  -- An observer with this parser.
  abbrev pub observing : lib.CState → Parser → SessionObserver lib
  observing s p = record { observer = true; current_http_parser = some (s, p) }

  -- A read that the library takes in full.
  pub taken :
      (bytes : Bytes) (o : SessionObserver lib) (s' : lib.CState) (q : Parser)
      → run
          (lib.http_parser_execute (create_http_parser lib o.current_http_parser).0 bytes)
          (record (create_http_parser lib o.current_http_parser).1 {
            status = HandleStatus.part_received;
          })
        ≡ ok (length bytes, s', q)
      → SessionObserver.handle_data lib bytes o
        ≡ ok (q.status, (dispatch lib q.status s' q o).0, (dispatch lib q.status s' q o).1)
  unfolding SessionObserver.handle_data parse settle
  taken bytes o s' q ran =
      let all : (length bytes == length bytes) ≡ true = ground arith in rw (ran, all) refl

  pub feed-cons :
      (bytes : Bytes) (pieces : List Bytes) (o o' o'' : SessionObserver lib) (status : HandleStatus)
      (calls later : List Call)
      → SessionObserver.handle_data lib bytes o ≡ ok (status, o', calls)
      → feed pieces o' ≡ ok (o'', later)
      → feed (bytes ∷ pieces) o ≡ ok (o'', calls ++ later)
  unfolding feed
  feed-cons bytes pieces o o' o'' status calls later handled rest = rw (handled, rest) refl

  -- A parser that has read this much of a body, with `k` bytes to come.
  pub record HasRead (read : Bytes) (k : ℕ) (p : Parser) : Type 0 where
    pub buffer : allocate p.content_length p.body ≡ some (read ++ replicate k 0)
    pub index : p.body_index ≡ length read
    pub total : length read + k ≡ p.content_length
    pub bound : p.content_length ≤ max_body_length

  abbrev delivered : Bytes → Parser → SessionObserver lib × List Call
  delivered body p = (create lib, handle_packet (record p.packet { body = some body }) ∷ [])

  accepted-piece :
      (c : ParserFields) (piece read : Bytes) (k rest : ℕ) (p : Parser)
      → HasRead read k p
      → 0 < length piece
      → length piece + rest ≡ k
      → deliver (on_body (some c) (some piece) ∷ []) p
        ≡ ok (
          pos 0,
          record p {
            body = some ((read ++ piece) ++ replicate rest 0);
            body_index = length (read ++ piece);
          },
        )
  unfolding deliver handle
  accepted-piece c piece read k rest p has some_bytes room =
      rw
        (handle_body-append c piece read k rest p has.buffer has.index has.total has.bound
          some_bytes room)
        refl

  pub feed-ReportsBody :
      {c : ParserFields} {s : lib.CState} {pieces : List Bytes} (read : Bytes) (k : ℕ) (p : Parser)
      → ReportsBody c s pieces
      → HasRead read k p
      → AllNonempty pieces
      → length (joined pieces) ≡ k
      → feed pieces (observing s p) ≡ ok (delivered (read ++ joined pieces) p)
  unfolding feed dispatch create
  feed-ReportsBody {c} {s} read k p (last_piece {s' = s'} {piece} reports) has full fits =
      let p' = record p { status = HandleStatus.part_received } in
      let q = completed (read ++ joined (piece ∷ [])) p' in
      let ran = run-Reports p' q reports (
        deliver-bodies c (piece ∷ []) read k p' has.buffer (λ e. absurd (cc e)) has.index has.total
          has.bound full fits) in
      feed-cons piece [] (observing s p) (create lib) (create lib) _ _ []
        (taken piece (observing s p) s' q ran) refl
  feed-ReportsBody {c} {s} read k p (one_piece {s' = s'} {piece} {pieces} reports more) has full
        fits =
      let rest = length (joined pieces) in
      let p' = record p { status = HandleStatus.part_received } in
      let q = record p' {
        body = some ((read ++ piece) ++ replicate rest 0);
        body_index = length (read ++ piece);
      } in
      let room : length piece + rest ≡ k =
        omega (arith, fits, length-append piece (joined pieces)) in
      let accepted : deliver (on_body (some c) (some piece) ∷ []) p' ≡ ok (pos 0, q) =
        accepted-piece c piece read k rest p'
          (record { buffer = has.buffer; index = has.index; total = has.total; bound = has.bound })
          full.0 room in
      let ran = run-Reports p' q reports accepted in
      let later =
        feed-ReportsBody (read ++ piece) rest q more
          (record {
            buffer = allocate-some q.content_length q.body _ refl;
            index = refl;
            total = omega (arith, has.total, length-append read piece);
            bound = has.bound;
          })
          full.1 refl in
      feed-cons piece pieces (observing s p) (observing s' q) (create lib) _ [] _
        (taken piece (observing s p) s' q ran) later
      ∙ ap (λ b. ok (delivered b p)) (append_assoc read piece (joined pieces))
