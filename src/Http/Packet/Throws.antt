-- ===== src/Http/Packet/Throws.antt =====
-- What the serializing of a packet throws.
use tv_cast.Prelude.{
  ℕ, Option, none, some, length, replicate, ltb, leb, memcpy_at, Bytes, Behaves, bind-Behaves,
  if-Behaves, ◌+◌, ◌%◌, ◌^◌,
}
use tv_cast.Http.CParser.{HttpParserLib}
use tv_cast.Http.Packet.{
  Packet, PacketType, init, request, response, serialize, serialize_as, assemble, copy_to,
  copy_body, body_size, start_string, header_block,
}

pub memcpy_at-Behaves : (buffer : Bytes) (i : ℕ) (src : Bytes) → Behaves (memcpy_at buffer i src)
unfolding memcpy_at
memcpy_at-Behaves buffer i src =
    if-Behaves (ltb i (length buffer)) _ _
      (if-Behaves (leb (i + length src) (length buffer)) _ _ tt ((λ e. cc), (λ e. cc)))
      ((λ e. cc), (λ e. cc))

copy_to-Behaves : (src : Bytes) (i : ℕ) (buffer : Bytes) → Behaves (copy_to src i buffer)
unfolding copy_to
copy_to-Behaves src i buffer =
    if-Behaves (ltb 0 (length src)) _ _ (memcpy_at-Behaves buffer i src) ((λ e. cc), (λ e. cc))

copy_body-Behaves :
    (body : Option Bytes) (i : ℕ) (buffer : Bytes) → Behaves (copy_body body i buffer)
unfolding copy_body
copy_body-Behaves none i buffer = tt
copy_body-Behaves (some body) i buffer = copy_to-Behaves body i buffer

assemble-Behaves :
    (start headers : Bytes) (body : Option Bytes) → Behaves (assemble start headers body)
unfolding assemble
assemble-Behaves start headers body =
    let size = (length start + length headers + body_size body) % 2 ^ 32 in
    bind-Behaves (copy_to start 0 (replicate size 0)) _ (copy_to-Behaves start 0 _) (λ b.
      bind-Behaves (copy_to headers (length start) b) _ (copy_to-Behaves headers _ b)
        (λ b'. copy_body-Behaves body _ b'))

module _ (lib : HttpParserLib) where
  serialize_as-Behaves : (kind : PacketType) (p : Packet) → Behaves (serialize_as lib kind p)
  unfolding serialize_as
  serialize_as-Behaves init p = tt
  serialize_as-Behaves request p =
      bind-Behaves (assemble (start_string lib request p) (header_block p.header_fields) p.body) _
        (assemble-Behaves _ _ p.body) (λ b. tt)
  serialize_as-Behaves response p =
      bind-Behaves (assemble (start_string lib response p) (header_block p.header_fields) p.body) _
        (assemble-Behaves _ _ p.body) (λ b. tt)

  pub serialize-Behaves : (p : Packet) → Behaves (serialize lib p)
  unfolding serialize
  serialize-Behaves p = serialize_as-Behaves p.kind p
