-- ===== src/Http/Parser/Faults.antt =====
-- Where the callbacks depart from what a message means: text that arrives in two pieces, a second
-- message in one `Parser`, and a body with no usable Content-Length.
use tv_cast.Prelude.{
  ℕ, ◌%◌, ◌^◌, ◌≤◌, ◌<◌, ◌≡◌, ◌≢◌, refl, ap, arith, Bool, false, none, some, [], ◌∷◌, ◌++◌, ltb,
  leb, ◌&&◌, if◌then◌else◌, length, length-append, replicate, memcpy_at, length-replicate, Bytes,
  lookup, insert, lookup-insert, bytes_eq_refl, pos, eq_int, ok, err, out_of_range,
}
use tv_cast.Http.CParser.{
  on_url, on_header_field, on_header_value, on_headers_complete, on_body, ParserFields,
}
use tv_cast.Http.Packet.{max_body_length}
use tv_cast.Http.Parser.{
  Parser, Reply, reject, allocate, copy_body, handle_body, handle, start_packet,
}
use tv_cast.Http.Parser.Body.{deliver, allocate_blank}

shorter : (a b : Bytes) → a ≢ [] → b ≢ a ++ b
shorter [] b ne e = ne refl
shorter (x ∷ a) b ne e = absurd (omega (arith, ap length e, length-append (x ∷ a) b))

-- If `http_parser` hands over a URL in two pieces, the first not empty, both are accepted, and
-- the packet's URL is the second piece, which is not the URL.
pub deliver-url-split :
    (a b : Bytes) (p : Parser)
    → a ≢ []
    → (q : Parser) × (deliver (on_url (some a) ∷ on_url (some b) ∷ []) p ≡ ok (pos 0, q))
      × (q.packet.url ≡ b)
      × (q.packet.url ≢ a ++ b)
unfolding deliver handle
deliver-url-split a b p ne =
    (record p { packet = record p.packet { url = b } }, refl, refl, shorter a b ne)

-- If `http_parser` hands over the value of a header field in two pieces, both are accepted, and
-- the packet has the second piece alone as the value of that field.
pub deliver-header_value-split :
    (field a b : Bytes) (p : Parser)
    → (q : Parser) × (deliver
          (on_header_field (some field) ∷ on_header_value (some a) ∷ on_header_value (some b) ∷ [])
          p
        ≡ ok (pos 0, q))
      × (lookup field q.packet.header_fields ≡ some b)
unfolding deliver handle
deliver-header_value-split field a b p = (
  record p {
    current_field = field;
    packet = record p.packet {
      header_fields = insert field b (insert field a p.packet.header_fields);
    };
  },
  refl,
  rw (lookup-insert field field b _, bytes_eq_refl field),
)

-- Whether a callback returned 0.
abbrev pub accepted : Reply → Bool
accepted (ok (r, p)) = eq_int r (pos 0)
accepted (err e) = false

-- Where no body is held and nothing was read before, `HandleBody` takes a piece exactly if
-- `content_length_` is from 1 to 65535 and the piece is not empty and not longer than it.
pub handle_body_first :
    (c : ParserFields) (chunk : Bytes) (p : Parser)
    → p.body ≡ none
    → p.body_index ≡ 0
    → p.content_length < 2 ^ 32
    → accepted (handle_body (some c) (some chunk) p) ≡ (
        ltb 0 p.content_length
        && leb p.content_length max_body_length
        && (ltb 0 (length chunk) && leb (length chunk) p.content_length))
unfolding handle_body allocate copy_body memcpy_at
handle_body_first c chunk p blank index bound =
    rw (blank, handle_body) (ground (arith, length-replicate {A = ℕ} p.content_length 0))

handle_body_stale :
    (c : ParserFields) (chunk : Bytes) (p : Parser)
    → p.body ≡ none
    → 0 < p.body_index
    → p.body_index ≤ max_body_length
    → p.content_length ≡ length chunk
    → 0 < p.content_length
    → p.content_length ≤ max_body_length
    → handle_body (some c) (some chunk) p ≡ (
        if ltb p.content_length p.body_index
        then err out_of_range
        else reject (record p { body = some (replicate p.content_length 0) }))
unfolding handle_body copy_body memcpy_at
handle_body_stale c chunk p blank lo hi total some_bytes bound =
    rw (allocate_blank p.content_length p.body blank some_bytes bound)
      (ground (arith, length-replicate {A = ℕ} p.content_length 0))

-- In a parser that holds no body and has read one of 1 to 65535 bytes before, a message with a
-- body of 1 to 65535 bytes in one piece is not accepted: `out_of_range` is thrown if the body is
-- shorter than the first, and the callback refuses it otherwise. (`body_index_` is not reset.)
pub deliver_second :
    (c : ParserFields) (chunk : Bytes) (p : Parser)
    → p.body ≡ none
    → 0 < p.body_index
    → p.body_index ≤ max_body_length
    → c.content_length ≡ length chunk
    → 0 < c.content_length
    → c.content_length ≤ max_body_length
    → deliver (on_headers_complete (some c) ∷ on_body (some c) (some chunk) ∷ []) p ≡ (
        if ltb c.content_length p.body_index
        then err out_of_range
        else reject (record p {
          packet = start_packet c p.packet;
          content_length = c.content_length;
          body = some (replicate c.content_length 0);
        }))
deliver_second c chunk p blank lo hi total some_bytes bound =
    let q = record p {
      packet = start_packet c p.packet;
      content_length = c.content_length % 2 ^ 32;
    } in
    let same : c.content_length % 2 ^ 32 ≡ c.content_length = omega arith in
    let second =
      handle_body_stale c chunk q blank lo hi (omega arith) (omega arith) (omega arith) in
    unfold deliver handle in rw (second, same) (ground arith)
