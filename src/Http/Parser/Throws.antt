-- ===== src/Http/Parser/Throws.antt =====
-- What a run of the parser throws.
use tv_cast.Prelude.{
  Option, none, some, ltb, leb, ◌&&◌, length, memcpy_at, Bytes, Behaves, bind-Behaves, if-Behaves,
}
use tv_cast.Http.CParser.{
  Callback, on_message_begin, on_url, on_status, on_header_field, on_header_value,
  on_headers_complete, on_body, on_message_complete, on_chunk_header, Run, done, call,
  HttpParserLib,
}
use tv_cast.Http.Packet.Throws.{memcpy_at-Behaves}
use tv_cast.Http.Parser.{
  Parser, handle, run, parse, handle_msg_begin, handle_url, handle_status, handle_header_field,
  handle_header_value, handle_header_complete, handle_body, handle_msg_complete,
  handle_header_chunk, copy_body, room, allocate,
}
use tv_cast.Net.{HandleStatus}

copy_body-Behaves :
    (chunk : Bytes) (body : Option Bytes) (p : Parser) → Behaves (copy_body chunk body p)
unfolding copy_body
copy_body-Behaves chunk none p = tt
copy_body-Behaves chunk (some buffer) p =
    if-Behaves (ltb 0 (length chunk) && leb (length chunk) (room p)) _ _
      (bind-Behaves (memcpy_at buffer p.body_index chunk) _
        (memcpy_at-Behaves buffer p.body_index chunk) (λ b. tt))
      tt

handle-Behaves : (e : Callback) (p : Parser) → Behaves (handle e p)
unfolding handle handle_msg_begin handle_url handle_status handle_header_field handle_header_value
    handle_header_complete handle_body handle_msg_complete handle_header_chunk
handle-Behaves on_message_begin p = tt
handle-Behaves (on_url none) p = tt
handle-Behaves (on_url (some url)) p = tt
handle-Behaves (on_status at) p = tt
handle-Behaves (on_header_field none) p = tt
handle-Behaves (on_header_field (some field)) p = tt
handle-Behaves (on_header_value none) p = tt
handle-Behaves (on_header_value (some value)) p = tt
handle-Behaves (on_headers_complete none) p = tt
handle-Behaves (on_headers_complete (some c)) p = tt
handle-Behaves (on_body none at) p = tt
handle-Behaves (on_body (some c) none) p = tt
handle-Behaves (on_body (some c) (some chunk)) p =
    copy_body-Behaves chunk (allocate p.content_length p.body) p
handle-Behaves on_message_complete p = tt
handle-Behaves on_chunk_header p = tt

run-Behaves : {C : Type 0} (r : Run C) (p : Parser) → Behaves (run r p)
unfolding run
run-Behaves (done n c) p = tt
run-Behaves (call e k) p =
    bind-Behaves (handle e p) _ (handle-Behaves e p) (λ (r, q). run-Behaves (k r) q)

pub parse-Behaves :
    (lib : HttpParserLib) (buffer : Bytes) (c : lib.CState) (p : Parser)
    → Behaves (parse lib buffer c p)
unfolding parse
parse-Behaves lib buffer c p =
    let begun = record p { status = HandleStatus.part_received } in
    bind-Behaves (run (lib.http_parser_execute c buffer) begun) _ (run-Behaves _ begun) (λ r. tt)
