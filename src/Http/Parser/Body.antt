-- ===== src/Http/Parser/Body.antt =====
-- The body of a message that arrives in pieces.
use tv_cast.Prelude.{
  ℕ, zero, suc, ◌+◌, ◌%◌, ◌^◌, ◌≤◌, ◌<◌, ◌≡◌, refl, ◌∙◌, arith, true, Option, none, some, List, [],
  ◌∷◌, ◌++◌, append_assoc, append-nil, ltb, leb, ◌&&◌, if◌then◌else◌, length, length-append,
  replicate, memcpy_at-append, Bytes, pos, eq_int, ok, ◌>>=◌,
}
use tv_cast.Net.{HandleStatus}
use tv_cast.Http.CParser.{Callback, on_headers_complete, on_body, on_message_complete, ParserFields}
use tv_cast.Http.Packet.{max_body_length}
use tv_cast.Http.Parser.{
  Parser, Reply, accept, allocate, copy_body, room, handle_body, handle, start_packet,
}

-- The library makes these calls, and stops behind the first that does not return 0.
unfoldable pub deliver : List Callback → Parser → Reply
deliver [] p = ok (pos 0, p)
deliver (e ∷ es) p = handle e p >>= λ (r, q). if eq_int r (pos 0) then deliver es q else ok (r, q)

abbrev pub joined : List Bytes → Bytes
joined [] = []
joined (chunk ∷ chunks) = chunk ++ joined chunks

abbrev pub bodies : ParserFields → List Bytes → List Callback
bodies c [] = []
bodies c (chunk ∷ chunks) = on_body (some c) (some chunk) ∷ bodies c chunks

abbrev pub AllNonempty : List Bytes → Type 0
AllNonempty [] = Unit
AllNonempty (chunk ∷ chunks) = (0 < length chunk) × AllNonempty chunks

-- A piece that fits is copied behind what has been read.
pub handle_body-append :
    (c : ParserFields) (chunk read : Bytes) (k rest : ℕ) (p : Parser)
    → allocate p.content_length p.body ≡ some (read ++ replicate k 0)
    → p.body_index ≡ length read
    → length read + k ≡ p.content_length
    → p.content_length ≤ max_body_length
    → 0 < length chunk
    → length chunk + rest ≡ k
    → handle_body (some c) (some chunk) p
      ≡ accept (record p {
        body = some ((read ++ chunk) ++ replicate rest 0);
        body_index = length (read ++ chunk);
      })
unfolding handle_body copy_body
handle_body-append c chunk read k rest p buffer index total bound some_bytes fits =
    let test : (ltb 0 (length chunk) && leb (length chunk) (room p)) ≡ true = ground arith in
    let next : (p.body_index + length chunk) % 2 ^ 32 ≡ length (read ++ chunk) =
      omega (arith, length-append read chunk) in
    rw (buffer, test, next, memcpy_at-append read chunk p.body_index k rest index fits some_bytes)
      (rw append_assoc)

-- What `on_message_complete` leaves of a parser that has read `whole` as its body.
abbrev pub completed : Bytes → Parser → Parser
completed whole p = record p {
  packet = record p.packet { body = some whole };
  body = none;
  body_index = length whole;
  status = HandleStatus.ok;
}

pub allocate-some :
    (n : ℕ) (body : Option Bytes) (buffer : Bytes)
    → body ≡ some buffer
    → allocate n body ≡ some buffer
unfolding allocate
allocate-some n body buffer e = rw e

pub deliver-bodies :
    (c : ParserFields) (chunks : List Bytes) (read : Bytes) (k : ℕ) (p : Parser)
    → allocate p.content_length p.body ≡ some (read ++ replicate k 0)
    → (chunks ≡ [] → p.body ≡ some (read ++ replicate k 0))
    → p.body_index ≡ length read
    → length read + k ≡ p.content_length
    → p.content_length ≤ max_body_length
    → AllNonempty chunks
    → length (joined chunks) ≡ k
    → deliver (bodies c chunks ++ on_message_complete ∷ []) p
      ≡ ok (pos 0, completed (read ++ joined chunks) p)
unfolding deliver handle
deliver-bodies c [] read zero p buffer held index total bound full fits =
    ground (arith, held refl, append-nil read)
deliver-bodies c [] read (suc k) p buffer held index total bound full fits = absurd (omega arith)
deliver-bodies c (chunk ∷ chunks) read k p buffer held index total bound full fits =
    let rest = length (joined chunks) in
    let later = record p {
      body = some ((read ++ chunk) ++ replicate rest 0);
      body_index = length (read ++ chunk);
    } in
    rw
      (handle_body-append c chunk read k rest p buffer index total bound full.0
        (omega (arith, fits, length-append chunk (joined chunks))))
      (deliver-bodies c chunks (read ++ chunk) rest later
          (allocate-some later.content_length later.body _ refl) (λ _. refl) refl
          (omega (arith, fits, length-append chunk (joined chunks), length-append read chunk)) bound
          full.1 refl
        ∙ rw append_assoc)

pub allocate_blank :
    (n : ℕ) (body : Option Bytes)
    → body ≡ none
    → 0 < n
    → n ≤ max_body_length
    → allocate n body ≡ some (replicate n 0)
unfolding allocate
allocate_blank n body e lo hi = rw e (ground arith)

-- In a parser that holds no body and has read none, a message with a Content-Length of at most
-- 65535, whose body arrives in one or more pieces that are not empty and add up to it, is
-- accepted: the packet gets the start line and exactly the body, and the status is OK.
pub deliver_message :
    (c : ParserFields) (chunk : Bytes) (chunks : List Bytes) (p : Parser)
    → p.body ≡ none
    → p.body_index ≡ 0
    → c.content_length ≡ length (joined (chunk ∷ chunks))
    → c.content_length ≤ max_body_length
    → AllNonempty (chunk ∷ chunks)
    → deliver
        (on_headers_complete (some c) ∷ (bodies c (chunk ∷ chunks) ++ on_message_complete ∷ []))
        p
      ≡ ok (
        pos 0,
        completed
            (joined (chunk ∷ chunks))
            (record p { packet = start_packet c p.packet; content_length = c.content_length }),
      )
deliver_message c chunk chunks p blank index total bound full =
    let q = record p {
      packet = start_packet c p.packet;
      content_length = c.content_length % 2 ^ 32;
    } in
    let same : c.content_length % 2 ^ 32 ≡ c.content_length = omega arith in
    let pieces =
      deliver-bodies c (chunk ∷ chunks) [] (c.content_length % 2 ^ 32) q
        (allocate_blank (c.content_length % 2 ^ 32) p.body blank
          (omega (arith, length-append chunk (joined chunks), full.0)) (omega arith))
        (λ e. absurd (cc e)) index (omega arith) (omega arith) full (omega arith) in
    unfold deliver handle in pieces ∙ rw same
