-- ===== src/Http/Parser/Safety.antt =====
-- Memory safety of the callbacks: no write leaves the body buffer, whatever `http_parser` reports,
-- as long as it calls back in the order of a message.
use tv_cast.Prelude.{
  ℕ, ◌+◌, ◌%◌, ◌^◌, ◌≤◌, ◌<◌, ◌≡◌, ◌≢◌, refl, arith, Option, none, some, List, [], ◌∷◌, ltb, ◌==◌,
  leb, length, length-replicate, Bytes, ℤ, Result, ok, err, undefined_behaviour, out_of_range,
  ◌>>=◌, memcpy_at-cases, Bool-cases, ◌&&◌, inl, inr,
}
use tv_cast.Http.CParser.{
  Callback, on_message_begin, on_url, on_status, on_header_field, on_header_value,
  on_headers_complete, on_body, on_message_complete, on_chunk_header, ParserFields, Run, done, call,
  HttpParserLib,
}
use tv_cast.Http.Packet.{max_body_length}
use tv_cast.Http.Parser.{Parser, Reply, allocate, copy_body, room, handle, run, settle, parse, new}

-- Where `http_parser` stands in a message: before `on_headers_complete`, or behind it.
pub data Phase : Type 0 where
  in_head in_body : Phase

-- What the buffer satisfies in a phase.
abbrev pub BufferFits : Phase → Option Bytes → ℕ → Type 0
BufferFits in_head none content_length = Unit {0}
BufferFits in_head (some buffer) content_length = ⊥
BufferFits in_body none content_length = Unit {0}
BufferFits in_body (some buffer) content_length =
    (length buffer ≡ content_length) × (content_length ≤ max_body_length)

abbrev pub IsSafe : Phase → Parser → Type 0
IsSafe ph p = BufferFits ph p.body p.content_length

-- What a callback may do: return in a safe state, or throw `out_of_range`.
abbrev pub Outcome : Phase → Reply → Type 0
Outcome ph (ok (r, p)) = IsSafe ph p
Outcome ph (err e) = e ≡ out_of_range

room-exact :
    (p : Parser)
    → p.body_index < p.content_length
    → p.content_length ≤ max_body_length
    → room p + p.body_index ≡ p.content_length
room-exact p h b = omega arith

copy_body-Outcome :
    (chunk : Bytes) (buffer : Option Bytes) (p : Parser)
    → IsSafe in_body p
    → BufferFits in_body buffer p.content_length
    → Outcome in_body (copy_body chunk buffer p)
unfolding copy_body
copy_body-Outcome chunk none p safe fits = safe
copy_body-Outcome chunk (some buffer) p safe fits =
    elim (Bool-cases (ltb 0 (length chunk) && leb (length chunk) (room p))) [
      | inl test ↦
          let cases =
            memcpy_at-cases buffer p.body_index chunk
              (λ inside. ground (arith, room-exact p (omega arith) fits.1)) in
          elim cases [
            | inl thrown ↦ rw (test, thrown) refl
            | inr (b, copied, same) ↦ rw (test, copied) (omega (arith, same, fits.0), fits.1)
          ]
      | inr refused ↦ rw refused fits
    ]

allocate-BufferFits :
    (n : ℕ) (buffer : Option Bytes)
    → BufferFits in_body buffer n
    → BufferFits in_body (allocate n buffer) n
unfolding allocate
allocate-BufferFits n none fits = ground (arith, length-replicate {A = ℕ} n 0)
allocate-BufferFits n (some b) fits = fits

-- The phase after a callback. The order of a message: `on_body` and `on_message_complete` come
-- behind `on_headers_complete`, which comes once.
pub data Next : Callback → Phase → Phase → Type 0 where
  begins : Next on_message_begin in_head in_head
  url : (at : Option Bytes) → Next (on_url at) in_head in_head
  status : (at : Option Bytes) → Next (on_status at) in_head in_head
  field : (ph : Phase) (at : Option Bytes) → Next (on_header_field at) ph ph
  value : (ph : Phase) (at : Option Bytes) → Next (on_header_value at) ph ph
  headers : (c : ParserFields) → Next (on_headers_complete (some c)) in_head in_body
  body : (c : Option ParserFields) (at : Option Bytes) → Next (on_body c at) in_body in_body
  chunk : Next on_chunk_header in_body in_body
  complete : Next on_message_complete in_body in_head

in_body-of_in_head :
    (buffer : Option Bytes) (m n : ℕ) → BufferFits in_head buffer m → BufferFits in_body buffer n
in_body-of_in_head none m n fits = tt
in_body-of_in_head (some b) m n fits = absurd fits

handle-Outcome :
    {e : Callback} {ph ph' : Phase} (p : Parser)
    → Next e ph ph'
    → IsSafe ph p
    → Outcome ph' (handle e p)
unfolding handle
handle-Outcome p begins s = s
handle-Outcome p (url none) s = s
handle-Outcome p (url (some x)) s = s
handle-Outcome p (status at) s = s
handle-Outcome p (field ph none) s = s
handle-Outcome p (field ph (some x)) s = s
handle-Outcome p (value ph none) s = s
handle-Outcome p (value ph (some x)) s = s
handle-Outcome p (headers c) s =
    in_body-of_in_head p.body p.content_length (c.content_length % 2 ^ 32) s
handle-Outcome p (body none at) s = s
handle-Outcome p (body (some c) none) s = s
handle-Outcome p (body (some c) (some x)) s =
    copy_body-Outcome x (allocate p.content_length p.body) p s
      (allocate-BufferFits p.content_length p.body s)
handle-Outcome p chunk s = s
handle-Outcome p complete s = tt

-- A run of the library that calls back in that order, from phase `ph` on.
pub data Conforms {C : Type 0} (phase_of : C → Phase) : Phase → Run C → Type 0 where
  stop : {ph : Phase} (n : ℕ) (c : C) → phase_of c ≡ ph → Conforms phase_of ph (done n c)
  step :
      {e : Callback} {ph ph' : Phase} {k : ℤ → Run C}
      → Next e ph ph'
      → ((r : ℤ) → Conforms phase_of ph' (k r))
      → Conforms phase_of ph (call e k)

-- What http_parser.h documents of the order of its callbacks.
pub record CallsInOrder (lib : HttpParserLib) : Type 0 where
  pub phase_of : lib.CState → Phase
  pub at_start : phase_of lib.http_parser_init ≡ in_head
  pub conforms :
      (c : lib.CState) (buffer : Bytes)
      → Conforms phase_of (phase_of c) (lib.http_parser_execute c buffer)

module _ {C : Type 0} (phase_of : C → Phase) where
  abbrev RunOutcome : Result (ℕ × C × Parser) → Type 0
  RunOutcome (ok (n, c, q)) = IsSafe (phase_of c) q
  RunOutcome (err e) = e ≡ out_of_range

  abbrev pub ParseOutcome : Result (C × Parser) → Type 0
  ParseOutcome (ok (c, q)) = IsSafe (phase_of c) q
  ParseOutcome (err e) = e ≡ out_of_range

  bind-RunOutcome :
      (ph : Phase) (m : Reply) (f : ℤ × Parser → Result (ℕ × C × Parser))
      → Outcome ph m
      → ((r : ℤ) (q : Parser) → IsSafe ph q → RunOutcome (f (r, q)))
      → RunOutcome (m >>= f)
  bind-RunOutcome ph (ok (r, q)) f safe rest = rest r q safe
  bind-RunOutcome ph (err e) f thrown rest = thrown

  run-RunOutcome :
      {ph : Phase} {r : Run C} (p : Parser)
      → Conforms phase_of ph r
      → IsSafe ph p
      → RunOutcome (run r p)
  unfolding run
  run-RunOutcome p (stop n c at) s = rw at s
  run-RunOutcome p (step {e} {ph' = ph'} {k = k} next rest) s =
      bind-RunOutcome ph' (handle e p) (λ (r, q). run (k r) q) (handle-Outcome p next s)
        (λ r q safe. run-RunOutcome q (rest r) safe)

settle-IsSafe :
    (buffer : Bytes) (n : ℕ) (ph : Phase) (p : Parser) → IsSafe ph p → IsSafe ph (settle buffer n p)
unfolding settle
settle-IsSafe buffer n ph p s = elim (Bool-cases (length buffer == n)) [
  | inl all ↦ rw all s
  | inr part ↦ rw part s
]

module _ {C : Type 0} (phase_of : C → Phase) where
  settle-ParseOutcome :
      (buffer : Bytes) (m : Result (ℕ × C × Parser))
      → RunOutcome phase_of m
      → ParseOutcome phase_of (m >>= λ (n, c, q). ok (c, settle buffer n q))
  settle-ParseOutcome buffer (ok (n, c, q)) s = settle-IsSafe buffer n (phase_of c) q s
  settle-ParseOutcome buffer (err e) thrown = thrown

  bind-ParseOutcome :
      (m : Result (C × Parser)) (f : C × Parser → Result (C × Parser))
      → ParseOutcome phase_of m
      → ((c : C) (q : Parser) → IsSafe (phase_of c) q → ParseOutcome phase_of (f (c, q)))
      → ParseOutcome phase_of (m >>= f)
  bind-ParseOutcome (ok (c, q)) f s rest = rest c q s
  bind-ParseOutcome (err e) f thrown rest = thrown

module _ (lib : HttpParserLib) where
  -- Successive reads into one `Parser`.
  unfoldable pub parse_all : List Bytes → lib.CState → Parser → Result (lib.CState × Parser)
  parse_all [] c p = ok (c, p)
  parse_all (buffer ∷ buffers) c p = parse lib buffer c p >>= λ (c', q). parse_all buffers c' q

  module _ (order : CallsInOrder lib) where
    open order use {phase_of, at_start, conforms}

    pub parse-ParseOutcome :
        (buffer : Bytes) (c : lib.CState) (p : Parser)
        → IsSafe (phase_of c) p
        → ParseOutcome phase_of (parse lib buffer c p)
    unfolding parse
    parse-ParseOutcome buffer c p s =
        settle-ParseOutcome phase_of buffer _ (run-RunOutcome phase_of _ (conforms c buffer) s)

    parse_all-ParseOutcome :
        (buffers : List Bytes) (c : lib.CState) (p : Parser)
        → IsSafe (phase_of c) p
        → ParseOutcome phase_of (parse_all buffers c p)
    unfolding parse_all
    parse_all-ParseOutcome [] c p s = s
    parse_all-ParseOutcome (buffer ∷ buffers) c p s =
        bind-ParseOutcome phase_of (parse lib buffer c p) _ (parse-ParseOutcome buffer c p s)
          (λ c' q safe. parse_all-ParseOutcome buffers c' q safe)

    -- If the library calls back in the order of a message, a new parser that is given any bytes,
    -- read by read, never ends in undefined behaviour: no write leaves its body buffer.
    pub parse_all-new :
        (buffers : List Bytes)
        → parse_all buffers lib.http_parser_init new ≢ err undefined_behaviour
    parse_all-new buffers e =
        let at_new : IsSafe (phase_of lib.http_parser_init) new = rw at_start tt in
        let outcome = parse_all-ParseOutcome buffers lib.http_parser_init new at_new in
        cc (rw e at outcome)
