-- ===== src/Http/Packet/Reader.antt =====
-- A reader of the wire format, written without `Serialize` in view: the start line ends at the
-- first CR LF, a header line is cut at its first ": ", an empty line ends the headers, and what
-- follows is the body.
use tv_cast.Prelude.{
  ℕ, zero, suc, ◌+◌, ◌<◌, ◌^◌, false, [], ◌∷◌, ◌++◌, ◌≡◌, ◌≢◌, refl, sym, ap, ◌∙◌, arith,
  append_assoc, Option, none, some, ◌==◌, if◌then◌else◌, length, length-append, Bytes, Map, codes,
  ok,
}
use tv_cast.Http.CParser.{HttpParserLib}
use tv_cast.Http.Packet.{
  Packet, PacketType, init, endl, header_block, body_size, start_string, serialize,
}
use tv_cast.Http.Packet.Wire.{body_bytes, assemble-append}

-- Cuts `xs` at the first place where byte `a` is followed by byte `b`.
unfoldable pub cut : ℕ → ℕ → Bytes → Option (Bytes × Bytes)
cut a b [] = none
cut a b (c ∷ []) = none
cut a b (c ∷ d ∷ cs) =
    let later : Option (Bytes × Bytes) = elim (cut a b (d ∷ cs)) [
      | none ↦ none
      | some (x, y) ↦ some (c ∷ x, y)
    ] in
    if c == a then (if d == b then some ([], cs) else later) else later

abbrev with_field : Bytes → Bytes → Option (Map × Bytes) → Option (Map × Bytes)
with_field key value none = none
with_field key value (some (fields, body)) = some ((key, value) ∷ fields, body)

abbrev with_line : Bytes → Option (Map × Bytes) → Option (Bytes × Map × Bytes)
with_line line none = none
with_line line (some (fields, body)) = some (line, fields, body)

-- The header fields and what is behind the empty line. A line takes one unit of fuel.
unfoldable pub read_fields : ℕ → Bytes → Option (Map × Bytes)
read_fields zero bytes = none
read_fields (suc fuel) bytes = elim (cut b'\r' b'\n' bytes) [
  | none ↦ none
  | some ([], rest) ↦ some ([], rest)
  | some (x ∷ line, rest) ↦ elim (cut b':' b' ' (x ∷ line)) [
    | none ↦ none
    | some (key, value) ↦ with_field key value (read_fields fuel rest)
  ]
]

-- The start line, the header fields in their order, and the body.
unfoldable pub read_message : ℕ → Bytes → Option (Bytes × Map × Bytes)
read_message fuel bytes = elim (cut b'\r' b'\n' bytes) [
  | none ↦ none
  | some (line, rest) ↦ with_line line (read_fields fuel rest)
]

-- Byte `a` does not occur.
abbrev pub Lacks : ℕ → Bytes → Type 0
Lacks a [] = Unit
Lacks a (c ∷ cs) = ((c == a) ≡ false) × Lacks a cs

-- No CR in a key or a value, and no ':' in a key.
abbrev pub IsClean : Map → Type 0
IsClean [] = Unit
IsClean ((k, v) ∷ m) = Lacks b'\r' k × Lacks b':' k × Lacks b'\r' v × IsClean m

cut-Lacks :
    (a b : ℕ) (xs rest : Bytes) → Lacks a xs → cut a b (xs ++ (a ∷ b ∷ rest)) ≡ some (xs, rest)
unfolding cut
cut-Lacks a b [] rest h = ground arith
cut-Lacks a b (c ∷ []) rest h = ground (arith, cut-Lacks a b [] rest tt)
cut-Lacks a b (c ∷ d ∷ xs) rest h = ground (arith, cut-Lacks a b (d ∷ xs) rest h.1)

Lacks-append : (a : ℕ) (xs ys : Bytes) → Lacks a xs → Lacks a ys → Lacks a (xs ++ ys)
Lacks-append a [] ys hx hy = hy
Lacks-append a (x ∷ xs) ys hx hy = (hx.0, Lacks-append a xs ys hx.1 hy)

module _ (k v rest : Bytes) (rk : Lacks b'\r' k) (ck : Lacks b':' k) (rv : Lacks b'\r' v) where
  cut-line :
      cut b'\r' b'\n' (k ++ (b':' ∷ b' ' ∷ (v ++ (b'\r' ∷ b'\n' ∷ rest))))
      ≡ some (k ++ (b':' ∷ b' ' ∷ v), rest)
  cut-line =
      ap (cut b'\r' b'\n') (sym (append_assoc k (b':' ∷ b' ' ∷ v) (b'\r' ∷ b'\n' ∷ rest)))
      ∙ cut-Lacks b'\r' b'\n' (k ++ (b':' ∷ b' ' ∷ v)) rest
          (Lacks-append b'\r' k (b':' ∷ b' ' ∷ v) rk (refl, (refl, rv)))

read_fields-line :
    (fuel : ℕ) (k v rest : Bytes)
    → Lacks b'\r' k
    → Lacks b':' k
    → Lacks b'\r' v
    → read_fields (suc fuel) (k ++ (b':' ∷ b' ' ∷ (v ++ (b'\r' ∷ b'\n' ∷ rest))))
      ≡ with_field k v (read_fields fuel rest)
unfolding read_fields
read_fields-line fuel [] v rest rk ck rv =
    ground (arith, cut-line [] v rest tt tt rv, cut-Lacks b':' b' ' [] v tt)
read_fields-line fuel (c ∷ k) v rest rk ck rv =
    ground (arith, cut-line (c ∷ k) v rest rk ck rv, cut-Lacks b':' b' ' (c ∷ k) v ck)

read_fields-header_block :
    (m : Map) (fuel : ℕ) (body : Bytes)
    → length m < fuel
    → IsClean m
    → read_fields fuel (header_block m ++ body) ≡ some (m, body)
unfolding header_block
read_fields-header_block m zero body f clean = absurd (omega arith)
read_fields-header_block [] (suc fuel) body f clean =
    unfold read_fields in ground (arith, cut-Lacks b'\r' b'\n' [] body tt)
read_fields-header_block ((k, v) ∷ m) (suc fuel) body f (rk, ck, rv, clean) = simp append_assoc (
    read_fields-line fuel k v (header_block m ++ body) rk ck rv
    ∙ rw (read_fields-header_block m fuel body (omega arith) clean))

read_message-append :
    (fuel : ℕ) (line : Bytes) (m : Map) (body : Bytes)
    → Lacks b'\r' line
    → IsClean m
    → length m < fuel
    → read_message fuel ((line ++ endl) ++ (header_block m ++ body)) ≡ some (line, m, body)
unfolding read_message
read_message-append fuel line m body lacks clean fuelled =
    ap (read_message fuel) (append_assoc line endl (header_block m ++ body))
    ∙ ground (
      arith,
      cut-Lacks b'\r' b'\n' line (header_block m ++ body) lacks,
      read_fields-header_block m fuel body fuelled clean,
    )

-- What the sizes of `Serialize` must satisfy: `body_` is null or not empty, and the packet is
-- smaller than the range of its `uint32_t` size.
pub record Fits (start : Bytes) (p : Packet) : Type 0 where
  pub body_ne_nil : p.body ≢ some []
  pub size_bound : length start + length (header_block p.header_fields) + body_size p.body < 2 ^ 32

header_block-pos : (m : Map) → 0 < length (header_block m)
unfolding header_block
header_block-pos [] = omega arith
header_block-pos ((k, v) ∷ m) =
    omega (arith, length-append k (codes ": " ++ (v ++ (endl ++ header_block m))))

module _ (lib : HttpParserLib) where
  pub serialize_lem :
      (kind : PacketType) (p : Packet)
      → p.kind ≡ kind
      → kind ≢ init
      → 0 < length (start_string lib kind p)
      → Fits (start_string lib kind p) p
      → serialize lib p
        ≡ ok (some (start_string lib kind p ++ (header_block p.header_fields ++ body_bytes p.body)))
  unfolding serialize
  serialize_lem init p e ne pos fits = absurd (ne refl)
  serialize_lem kind p e ne pos fits = ground (
    arith,
    assemble-append (start_string lib kind p) (header_block p.header_fields) p.body pos
        (header_block-pos p.header_fields) fits.body_ne_nil fits.size_bound,
  )

-- A packet that is no `Type::INIT`, with a start line and header fields free of CR (and keys free
-- of ':'), a body that is absent or not empty, and a size below 2 ^ 32, is written, and with
-- enough fuel for its header fields the reader gets back its start line, its header fields in the
-- map's order and its body.
pub read_message-serialize :
    (lib : HttpParserLib) (p : Packet) (line : Bytes) (fuel : ℕ)
    → p.kind ≢ init
    → start_string lib p.kind p ≡ line ++ endl
    → Lacks b'\r' line
    → IsClean p.header_fields
    → Fits (start_string lib p.kind p) p
    → length p.header_fields < fuel
    → (wire : Bytes) × (serialize lib p ≡ ok (some wire))
      × (read_message fuel wire ≡ some (line, p.header_fields, body_bytes p.body))
read_message-serialize lib p line fuel ne ends lacks clean fits fuelled =
    let wire = start_string lib p.kind p ++ (header_block p.header_fields ++ body_bytes p.body) in
    (
      wire,
      serialize_lem lib p.kind p refl ne (omega (arith, ap length ends, length-append line endl))
          fits,
      ap (λ z. read_message fuel (z ++ (header_block p.header_fields ++ body_bytes p.body))) ends
          ∙ read_message-append fuel line p.header_fields (body_bytes p.body) lacks clean fuelled,
    )
