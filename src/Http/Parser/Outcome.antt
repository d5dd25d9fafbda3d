-- ===== src/Http/Parser/Outcome.antt =====
-- What the status of a parse says of the callbacks that were made.
use tv_cast.Prelude.{
  ℕ, ◌≡◌, refl, sym, ap, ◌∙◌, arith, List, [], ◌∷◌, Option, none, some, ◌==◌, if◌then◌else◌, length,
  Bytes, ℤ, ok, err, >>=-eq-ok,
}
use tv_cast.Net.{HandleStatus}
use tv_cast.Http.CParser.{
  Callback, on_message_begin, on_url, on_status, on_header_field, on_header_value,
  on_headers_complete, on_body, on_message_complete, on_chunk_header, Run, done, call,
  HttpParserLib, ParserFields,
}
use tv_cast.Http.Parser.{Parser, Reply, allocate, copy_body, handle, run, settle, parse}

-- The callbacks of a run, in order, up to its end or to an exception.
unfoldable pub calls : {C : Type 0} → Run C → Parser → List Callback
calls (done n c) p = []
calls (call e k) p = e ∷ elim (handle e p) [ ok (r, q) ↦ calls (k r) q | err x ↦ [] ]

-- The status after these callbacks: that of the last `on_message_complete` or `on_chunk_header`.
abbrev pub status_after : HandleStatus → List Callback → HandleStatus
status_after s [] = s
status_after s (on_message_complete ∷ es) = status_after HandleStatus.ok es
status_after s (on_chunk_header ∷ es) = status_after HandleStatus.part_received es
status_after s (e ∷ es) = status_after s es

abbrev single : HandleStatus → Callback → HandleStatus
single s e = status_after s (e ∷ [])

-- One callback moves the status as the specification says, accepted or refused.
abbrev Moves : HandleStatus → Callback → Reply → Type 0
Moves s e (ok (r, q)) = q.status ≡ single s e
Moves s e (err x) = Unit

copy_body-Moves :
    (c : ParserFields) (chunk : Bytes) (buffer : Option Bytes) (p : Parser)
    → Moves p.status (on_body (some c) (some chunk)) (copy_body chunk buffer p)
unfolding copy_body
copy_body-Moves c chunk none p = refl
copy_body-Moves c chunk (some b) p = ground arith

handle-Moves : (e : Callback) (p : Parser) → Moves p.status e (handle e p)
unfolding handle
handle-Moves on_message_begin p = refl
handle-Moves (on_url none) p = refl
handle-Moves (on_url (some x)) p = refl
handle-Moves (on_status at) p = refl
handle-Moves (on_header_field none) p = refl
handle-Moves (on_header_field (some x)) p = refl
handle-Moves (on_header_value none) p = refl
handle-Moves (on_header_value (some x)) p = refl
handle-Moves (on_headers_complete none) p = refl
handle-Moves (on_headers_complete (some c)) p = refl
handle-Moves (on_body none at) p = refl
handle-Moves (on_body (some c) none) p = refl
handle-Moves (on_body (some c) (some x)) p =
    copy_body-Moves c x (allocate p.content_length p.body) p
handle-Moves on_message_complete p = refl
handle-Moves on_chunk_header p = refl

status_after-cons :
    (s : HandleStatus) (e : Callback) (es : List Callback)
    → status_after (single s e) es ≡ status_after s (e ∷ es)
status_after-cons s on_message_complete es = refl
status_after-cons s on_chunk_header es = refl
status_after-cons s _ es = refl

calls-call :
    {C : Type 0} (e : Callback) (k : ℤ → Run C) (p : Parser) (r : ℤ) (q : Parser)
    → handle e p ≡ ok (r, q)
    → calls (call e k) p ≡ e ∷ calls (k r) q
unfolding calls
calls-call e k p r q h = rw h

run-status :
    {C : Type 0} (r : Run C) (p : Parser) {n : ℕ} {c : C} {q : Parser}
    → run r p ≡ ok (n, c, q)
    → q.status ≡ status_after p.status (calls r p)
unfolding run
run-status (done m d) p e = unfold calls in ground arith
run-status (call e k) p h =
    let ((r, p'), replied, rest) = >>=-eq-ok (handle e p) (λ (r, p'). run (k r) p') h in
    let moved : p'.status ≡ single p.status e = rw replied at (handle-Moves e p) in
    run-status (k r) p' rest
    ∙ rw moved (
        status_after-cons p.status e (calls (k r) p')
        ∙ ap (status_after p.status) (sym (calls-call e k p r p' replied)))

settle-status :
    (buffer : Bytes) (n : ℕ) (r : Parser)
    → (settle buffer n r).status ≡ (if length buffer == n then r.status else HandleStatus.error)
unfolding settle
settle-status buffer n r = ground arith

-- The status of `q` is the one that the calls made from `p` decide.
abbrev pub StatusOf :
    (lib : HttpParserLib) → Bytes → lib.CState → Parser → lib.CState → Parser → Type 0
StatusOf lib buffer c p c' q =
    let waiting = record p { status = HandleStatus.part_received } in
    let callbacks = lib.http_parser_execute c buffer in
    (n : ℕ) × (r : Parser) × (run callbacks waiting ≡ ok (n, c', r))
    × (q.status ≡ (
        if length buffer == n
        then status_after HandleStatus.part_received (calls callbacks waiting)
        else HandleStatus.error))

-- Where `Parse` returns, its status is ERROR if the library did not take the whole buffer. If it
-- did, the status is OK or PART_RECEIVED as the last of the calls of `on_message_complete` and
-- `on_chunk_header` says, and PART_RECEIVED if there was none.
pub parse-status :
    (lib : HttpParserLib) (buffer : Bytes) (c : lib.CState) (p : Parser) {c' : lib.CState}
    {q : Parser}
    → parse lib buffer c p ≡ ok (c', q)
    → StatusOf lib buffer c p c' q
unfolding parse
parse-status lib buffer c p {c'} {q} h =
    let waiting = record p { status = HandleStatus.part_received } in
    let callbacks = lib.http_parser_execute c buffer in
    let ((n, d, r), ran, settled) = >>=-eq-ok (run callbacks waiting) _ h in
    let state_is : d ≡ c' = cc settled in
    let parser_is : settle buffer n r ≡ q = cc settled in
    (
      n,
      r,
      ran ∙ ap (λ z. ok (n, z, r)) state_is,
      ap (λ (z : Parser). z.status) (sym parser_is)
          ∙ settle-status buffer n r
          ∙ ap (λ z. if length buffer == n then z else HandleStatus.error)
              (run-status callbacks waiting ran),
    )
