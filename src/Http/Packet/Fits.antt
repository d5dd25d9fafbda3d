-- ===== src/Http/Packet/Fits.antt =====
-- The serializing of a packet of less than 2 ^ 32 bytes writes nothing outside its buffer.
use tv_cast.Prelude.{
  ℕ, ◌+◌, ◌<◌, ◌≤◌, ◌%◌, ◌^◌, ◌≡◌, refl, arith, Option, none, some, length, length-replicate,
  replicate, ltb, inl, inr, memcpy_at, memcpy_at-cases, Bytes, Defined, bind-Defined, if-Defined,
}
use tv_cast.Http.CParser.{HttpParserLib}
use tv_cast.Http.Packet.{
  Packet, PacketType, init, request, response, serialize, serialize_as, assemble, copy_to,
  copy_body, body_size, start_string, header_block,
}

-- What the buffer of a packet has to hold can be counted in its `uint32_t`.
abbrev pub Fits : HttpParserLib → Packet → Type 0
Fits lib p =
    length (start_string lib p.kind p) + length (header_block p.header_fields) + body_size p.body
    < 2 ^ 32

-- The buffer has this length.
abbrev Sized : ℕ → Bytes → Type 0
Sized n b = length b ≡ n

memcpy_at-Defined :
    (n i : ℕ) (src buffer : Bytes)
    → length buffer ≡ n
    → i + length src ≤ n
    → Defined (Sized n) (memcpy_at buffer i src)
memcpy_at-Defined n i src buffer sized inside =
    elim (memcpy_at-cases buffer i src (λ begun. omega arith)) [
      | inl thrown ↦ rw thrown (λ e. cc)
      | inr (b, copied, same) ↦ rw copied (omega arith)
    ]

copy_to-Defined :
    (n i : ℕ) (src buffer : Bytes)
    → length buffer ≡ n
    → i + length src ≤ n
    → Defined (Sized n) (copy_to src i buffer)
unfolding copy_to
copy_to-Defined n i src buffer sized inside =
    if-Defined (Sized n) (ltb 0 (length src)) _ _ (memcpy_at-Defined n i src buffer sized inside)
      (λ e. cc)

copy_body-Defined :
    (n i : ℕ) (body : Option Bytes) (buffer : Bytes)
    → length buffer ≡ n
    → i + body_size body ≤ n
    → Defined (Sized n) (copy_body body i buffer)
unfolding copy_body
copy_body-Defined n i none buffer sized inside = sized
copy_body-Defined n i (some body) buffer sized inside = copy_to-Defined n i body buffer sized inside

assemble-Defined :
    (start headers : Bytes) (body : Option Bytes)
    → length start + length headers + body_size body < 2 ^ 32
    → Defined (Sized (length start + length headers + body_size body)) (assemble start headers body)
unfolding assemble
assemble-Defined start headers body fits =
    let whole = length start + length headers + body_size body in
    let size = whole % 2 ^ 32 in
    bind-Defined (Sized whole) (copy_to start 0 (replicate size 0)) _
      (copy_to-Defined whole 0 start (replicate size 0)
        (omega (arith, length-replicate {A = ℕ} size 0)) (omega arith))
      (λ b made sized.
        bind-Defined (Sized whole) (copy_to headers (length start) b) _
          (copy_to-Defined whole (length start) headers b sized (omega arith))
          (λ b' made' sized'. copy_body-Defined whole _ body b' sized' (omega arith)))

module _ (lib : HttpParserLib) where
  abbrev Buffer : Option Bytes → Type 0
  Buffer b = Unit {0}

  serialize_as-Defined :
      (kind : PacketType) (p : Packet)
      → p.kind ≡ kind
      → Fits lib p
      → Defined Buffer (serialize_as lib kind p)
  unfolding serialize_as start_string
  serialize_as-Defined init p same fits = tt
  serialize_as-Defined request p same fits =
      bind-Defined Buffer
        (assemble (start_string lib request p) (header_block p.header_fields) p.body) _
        (assemble-Defined _ _ p.body (rw same at fits)) (λ b made sized. tt)
  serialize_as-Defined response p same fits =
      bind-Defined Buffer
        (assemble (start_string lib response p) (header_block p.header_fields) p.body) _
        (assemble-Defined _ _ p.body (rw same at fits)) (λ b made sized. tt)

  pub serialize-Defined : (p : Packet) → Fits lib p → Defined Buffer (serialize lib p)
  unfolding serialize
  serialize-Defined p fits = serialize_as-Defined p.kind p refl fits
