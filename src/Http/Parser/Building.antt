-- ===== src/Http/Parser/Building.antt =====
-- The packet that the calls for a whole message build.
use tv_cast.Prelude.{
  ℕ, ◌%◌, ◌^◌, ◌<◌, ◌≤◌, ◌≡◌, refl, sym, ap, ◌∙◌, arith, List, [], ◌∷◌, ◌++◌, append-nil, Option,
  none, some, false, inl, inr, Bool-cases, ◌==◌, Bytes, Map, length, ℤ, pos, eq_int, eq_int_iff, ok,
  ◌>>=◌, >>=-eq-ok,
}
use tv_cast.Net.{HandleStatus}
use tv_cast.Http.CParser.{
  ParserFields, on_message_begin, Callback, on_headers_complete, on_message_complete, Run,
}
use tv_cast.Http.Packet
use tv_cast.Http.Packet.{
  Packet, request, response, status_init, method_init, max_body_length, set_url, add_header_field,
  assign_body,
}
use tv_cast.Http.Packet.Order.{add_fields, insert_all, add_fields-insert_all}
use tv_cast.Http.Parser.{Reply, Parser, finish_body, new, handle, run, start_packet}
use tv_cast.Http.Parser.Body.{deliver, deliver_message}
use tv_cast.Http.Parser.Reading.{
  StartLine, request_line, status_line, parser_fields, start_calls, field_calls, body_calls,
  message_calls, Reports, ends, calls,
}

-- The packet with this start line, these header fields and this body.
abbrev pub packet_of : StartLine → Map → Option Bytes → Packet
packet_of (request_line method url) fields body = record {
  http_major = 1;
  http_minor = 1;
  status = status_init;
  method = pos method;
  kind = request;
  url = url;
  header_fields = fields;
  body = body;
}
packet_of (status_line status name) fields body = record {
  http_major = 1;
  http_minor = 1;
  status = pos status;
  method = method_init;
  kind = response;
  url = [];
  header_fields = fields;
  body = body;
}

abbrev reply : ℤ → Parser → Reply
reply r p = ok (r, p)

refused-pos : (r : ℤ) (p q : Parser) → eq_int r (pos 0) ≡ false → ¬ (reply r p ≡ reply (pos 0) q)
refused-pos r p q refused stopped =
    let same : r ≡ pos 0 = cc stopped in cc (sym refused ∙ ap (λ x. eq_int x (pos 0)) same)

-- A run that reports calls which are all accepted leaves what they leave.
pub run-Reports :
    {C : Type 0} {n : ℕ} {c : C} {es : List Callback} {r : Run C} (p q : Parser)
    → Reports n c es r
    → deliver es p ≡ ok (pos 0, q)
    → run r p ≡ ok (n, c, q)
unfolding run deliver
run-Reports {n = n} {c = c} p q ends h = let same : p ≡ q = cc h in ap (λ x. ok (n, c, x)) same
run-Reports {n = n} {c = c} p q (calls {e} {es} {k} rest) h =
    let ((r, p'), replied, goes) = >>=-eq-ok (handle e p) _ h in
    elim (Bool-cases (eq_int r (pos 0))) [
      | inl accepted ↦
          let is_zero : r ≡ pos 0 = (eq_int_iff r (pos 0)).0 accepted in
          let later : deliver es p' ≡ ok (pos 0, q) = rw accepted at goes in
          ap (λ m. m >>= λ (x, y). run (k x) y) replied
          ∙ ap (λ x. run (k x) p') is_zero
          ∙ run-Reports p' q rest later
      | inr refused ↦ absurd (refused-pos r p' q refused (rw refused at goes))
    ]

-- The name that was reported last.
abbrev pub last_name : Map → Bytes → Bytes
last_name [] name = name
last_name ((key, value) ∷ m) name = last_name m key

-- What the header fields leave of a parser.
abbrev pub with_fields : Map → Parser → Parser
with_fields m p = record p {
  current_field = last_name m p.current_field;
  packet = add_fields m p.packet;
}

pub deliver-field_calls :
    (m : Map) (es : List Callback) (p : Parser)
    → deliver (field_calls m ++ es) p ≡ deliver es (with_fields m p)
unfolding deliver handle
deliver-field_calls [] es p = refl
deliver-field_calls ((key, value) ∷ m) es p =
    deliver-field_calls m es
      (record p { current_field = key; packet = add_header_field key value p.packet })

-- A body is not empty, and no longer than the parser allows.
abbrev pub BodyFits : Option Bytes → Type 0
BodyFits none = Unit {0}
BodyFits (some body) = (0 < length body) × (length body ≤ max_body_length)

-- A status is not 0, which the parser takes for a request.
abbrev pub IsProper : StartLine → Type 0
IsProper (request_line method url) = Unit {0}
IsProper (status_line status name) = 0 < status

-- The packet's body is replaced where one was reported.
abbrev pub with_body : Option Bytes → Packet → Packet
with_body none p = p
with_body (some body) p = assign_body (some body) p

deliver-body_calls :
    (c : ParserFields) (body : Option Bytes) (p : Parser)
    → p.body ≡ none
    → p.body_index ≡ 0
    → BodyFits body
    → ((b : Bytes) → body ≡ some b → c.content_length ≡ length b)
    → (q : Parser) × (deliver
          (on_headers_complete (some c) ∷ (body_calls c body ++ (on_message_complete ∷ [])))
          p
        ≡ ok (pos 0, q))
      × (q.status ≡ HandleStatus.ok)
      × (q.packet ≡ with_body body (start_packet c p.packet))
deliver-body_calls c none p blank index fits measured =
    unfold deliver handle in
    (
      record p {
        packet = finish_body p.body (start_packet c p.packet);
        body = none;
        content_length = c.content_length % 2 ^ 32;
        status = HandleStatus.ok;
      },
      refl,
      refl,
      rw blank refl,
    )
deliver-body_calls c (some b) p blank index (full, bound) measured =
    let same = append-nil b in
    let size : c.content_length ≡ length (b ++ []) = measured b refl ∙ ap length (sym same) in
    (
      _,
      deliver_message c b [] p blank index size (omega (arith, ap length same)) (full, tt),
      refl,
      ap (λ x. assign_body (some x) (start_packet c p.packet)) same,
    )

with_body-record :
    (body : Option Bytes) (p : Packet) → p.body ≡ none → with_body body p ≡ record p { body = body }
with_body-record none p blank = ap (λ b. record p { body = b }) blank
with_body-record (some b) p blank = refl

-- The packet that a start line begins, in front of the header fields.
abbrev pub begun : StartLine → Packet
begun (request_line method url) = set_url url Packet.empty
begun (status_line status name) = Packet.empty

pub start_packet-fields :
    (line : StartLine) (fields : Map) (body : Option Bytes) (n : ℕ)
    → IsProper line
    → with_body body (start_packet (parser_fields line n) (add_fields fields (begun line)))
      ≡ packet_of line (insert_all fields []) body
unfolding start_packet
start_packet-fields (request_line method url) fields body n proper =
    rw (add_fields-insert_all fields (set_url url Packet.empty))
      (with_body-record body (packet_of (request_line method url) (insert_all fields []) none) refl)
start_packet-fields (status_line status name) fields body n proper =
    let test : (status == 0) ≡ false = ground arith in
    rw (add_fields-insert_all fields Packet.empty, test)
      (with_body-record body (packet_of (status_line status name) (insert_all fields []) none) refl)

pub deliver-start_calls :
    (line : StartLine) (es : List Callback)
    → deliver
        (on_message_begin ∷ (start_calls line ++ es))
        (record new { status = HandleStatus.part_received })
      ≡ deliver es (record new { status = HandleStatus.part_received; packet = begun line })
unfolding deliver handle
deliver-start_calls (request_line method url) es = refl
deliver-start_calls (status_line status name) es = refl

pub parser_fields-content_length :
    (line : StartLine) (n : ℕ) → (parser_fields line n).content_length ≡ n
parser_fields-content_length (request_line method url) n = refl
parser_fields-content_length (status_line status name) n = refl

-- From a parser that has read nothing, the calls for a whole message build its packet.
pub deliver-message_calls :
    (line : StartLine) (fields : Map) (body : Option Bytes) (n : ℕ)
    → IsProper line
    → BodyFits body
    → ((b : Bytes) → body ≡ some b → n ≡ length b)
    → (q : Parser) × (deliver
          (message_calls line fields body n)
          (record new { status = HandleStatus.part_received })
        ≡ ok (pos 0, q))
      × (q.status ≡ HandleStatus.ok)
      × (q.packet ≡ packet_of line (insert_all fields []) body)
deliver-message_calls line fields body n proper fits measured =
    let p = record new { status = HandleStatus.part_received; packet = begun line } in
    let c = parser_fields line n in
    let (q, ran, completed, packet) =
      deliver-body_calls c body (with_fields fields p) refl refl fits
        (λ b is. parser_fields-content_length line n ∙ measured b is) in
    (
      q,
      deliver-start_calls line _ ∙ deliver-field_calls fields _ p ∙ ran,
      completed,
      packet ∙ start_packet-fields line fields body n proper,
    )
