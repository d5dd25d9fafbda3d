-- ===== src/Tests/Fields.antt =====
-- The same header fields in two orders.
use tv_cast.Prelude.{◌≡◌, arith, List, [], ◌∷◌, Bytes, bytes_eq_iff, codes}
use tv_cast.Http.Packet
use tv_cast.Http.Packet.{Packet, request, serialize}
use tv_cast.Http.Packet.Order.{add_fields, serialize-add_fields}
use tv_cast.Tests.Setup.{lib}

abbrev once : List (Bytes × Bytes)
once = (codes "Host", codes "b") ∷ (codes "Accept", codes "c") ∷ []

-- One of the names is given another value first.
abbrev twice : List (Bytes × Bytes)
twice = (codes "Accept", codes "a") ∷ (codes "Accept", codes "c") ∷ (codes "Host", codes "b") ∷ []

abbrev get : Packet
get = record Packet.empty { kind = request }

serialize-add_fields_example :
    (add_fields once get ≡ add_fields twice get)
    × (serialize lib (add_fields once get) ≡ serialize lib (add_fields twice get))
serialize-add_fields_example =
    serialize-add_fields lib once twice get tt
      (λ k. ground (arith, bytes_eq_iff k (codes "Accept"), bytes_eq_iff k (codes "Host")))
