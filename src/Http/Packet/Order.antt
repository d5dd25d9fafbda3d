-- ===== src/Http/Packet/Order.antt =====
-- The header fields of a packet, whatever the order in which they are added.
use tv_cast.Prelude.{
  insert, Map, none, bytes_eq_iff, lookup-Above, inl, inr, Bool-cases, ◌≡◌, refl, sym, ap, ◌∙◌,
  List, [], ◌∷◌, Option, some, if◌then◌else◌, Bytes, bytes_eq, lookup, lookup-insert, IsSorted,
  insert-IsSorted, maps-equal,
}
use tv_cast.Http.CParser.{HttpParserLib}
use tv_cast.Http.Packet
use tv_cast.Http.Packet.{Packet, add_header_field, serialize}

-- The fields added one after the other.
abbrev pub add_fields : List (Bytes × Bytes) → Packet → Packet
add_fields [] p = p
add_fields ((key, value) ∷ fields) p = add_fields fields (add_header_field key value p)

-- The value that was given to a name last, where it is given one.
abbrev pub latest : Bytes → List (Bytes × Bytes) → Option Bytes → Option Bytes
latest k [] before = before
latest k ((key, value) ∷ fields) before =
    latest k fields (if bytes_eq k key then some value else before)

add_fields-IsSorted :
    (fields : List (Bytes × Bytes)) (p : Packet)
    → IsSorted p.header_fields
    → IsSorted (add_fields fields p).header_fields
add_fields-IsSorted [] p sorted = sorted
add_fields-IsSorted ((key, value) ∷ fields) p sorted =
    add_fields-IsSorted fields (add_header_field key value p)
      (insert-IsSorted key value p.header_fields sorted)

lookup-add_fields :
    (k : Bytes) (fields : List (Bytes × Bytes)) (p : Packet)
    → lookup k (add_fields fields p).header_fields ≡ latest k fields (lookup k p.header_fields)
lookup-add_fields k [] p = refl
lookup-add_fields k ((key, value) ∷ fields) p =
    lookup-add_fields k fields (add_header_field key value p)
    ∙ ap (latest k fields) (lookup-insert key k value p.header_fields)

-- What the fields are added to is left as it is otherwise.
add_fields-record :
    (fields : List (Bytes × Bytes)) (p : Packet)
    → add_fields fields p ≡ record p { header_fields = (add_fields fields p).header_fields }
add_fields-record [] p = refl
add_fields-record ((key, value) ∷ fields) p =
    add_fields-record fields (add_header_field key value p)

-- For a packet whose header fields stand in the order of a map, two sequences of header fields
-- that give every name the same last value, over what the packet had before, make the same packet
-- of it, and so the same bytes: neither the order of different names matters nor a value that is
-- replaced.
pub serialize-add_fields :
    (lib : HttpParserLib) (fields others : List (Bytes × Bytes)) (p : Packet)
    → IsSorted p.header_fields
    → ((k : Bytes)
        → latest k fields (lookup k p.header_fields) ≡ latest k others (lookup k p.header_fields))
    → (add_fields fields p ≡ add_fields others p)
      × (serialize lib (add_fields fields p) ≡ serialize lib (add_fields others p))
serialize-add_fields lib fields others p sorted same =
    let maps =
      maps-equal (add_fields fields p).header_fields (add_fields others p).header_fields
        (add_fields-IsSorted fields p sorted) (add_fields-IsSorted others p sorted)
        (λ k. lookup-add_fields k fields p ∙ same k ∙ sym (lookup-add_fields k others p)) in
    let packets : add_fields fields p ≡ add_fields others p =
      add_fields-record fields p
      ∙ ap (λ m. record p { header_fields = m }) maps
      ∙ sym (add_fields-record others p) in
    (packets, ap (serialize lib) packets)

-- What a value that is given last leaves, in a map in which no name stands twice.
abbrev or_else : Option Bytes → Option Bytes → Option Bytes
or_else none before = before
or_else (some value) before = some value

or_else-none : (found : Option Bytes) → or_else found none ≡ found
or_else-none none = refl
or_else-none (some v) = refl

latest-lookup :
    (k : Bytes) (m : Map) (before : Option Bytes)
    → IsSorted m
    → latest k m before ≡ or_else (lookup k m) before
unfolding lookup
latest-lookup k [] before sorted = refl
latest-lookup k ((j, v) ∷ m) before (above, sorted) = elim (Bool-cases (bytes_eq k j)) [
  | inl same ↦
      let at : k ≡ j = (bytes_eq_iff k j).0 same in
      let absent : lookup k m ≡ none = rw at (lookup-Above j m above) in
      rw same (latest-lookup k m (some v) sorted ∙ rw absent refl)
  | inr other ↦ rw other (latest-lookup k m before sorted)
]

-- The map behind these assignments.
abbrev pub insert_all : List (Bytes × Bytes) → Map → Map
insert_all [] m = m
insert_all ((key, value) ∷ fields) m = insert_all fields (insert key value m)

pub add_fields-insert_all :
    (fields : List (Bytes × Bytes)) (p : Packet)
    → add_fields fields p ≡ record p { header_fields = insert_all fields p.header_fields }
add_fields-insert_all [] p = refl
add_fields-insert_all ((key, value) ∷ fields) p =
    add_fields-insert_all fields (add_header_field key value p)

-- The entries of a map, in its order, make that map.
pub insert_all-IsSorted : (m : Map) → IsSorted m → insert_all m [] ≡ m
unfolding lookup
insert_all-IsSorted m sorted =
    let added = add_fields-insert_all m Packet.empty in
    let fields : (add_fields m Packet.empty).header_fields ≡ m =
      maps-equal (add_fields m Packet.empty).header_fields m (add_fields-IsSorted m Packet.empty tt)
        sorted
        (λ k.
          lookup-add_fields k m Packet.empty
          ∙ latest-lookup k m none sorted
          ∙ or_else-none (lookup k m)) in
    ap (λ (p : Packet). p.header_fields) (sym added) ∙ fields
