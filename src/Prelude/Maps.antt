-- ===== src/Prelude/Maps.antt =====
-- `std::map<std::string, std::string>`: its entries in the order in which it is iterated.
use mathlib.Core.Path.{◌≡◌, refl}
use mathlib.Core.Option.{Option, none, some}
use mathlib.Core.List.{List, [], ◌∷◌}
use native.Mathlib.Omega.{arith}
use tv_cast.Prelude.Tests.{if◌then◌else◌}
use tv_cast.Prelude.Strings.{Bytes, bytes_eq, bytes_lt, bytes_eq_iff}
use tv_cast.Prelude.Results.{Result, ok, err, out_of_range}

abbrev pub Map : Type 0
Map = List (Bytes × Bytes)

unfoldable pub lookup : Bytes → Map → Option Bytes
lookup k [] = none
lookup k ((j, v) ∷ m) = if bytes_eq k j then some v else lookup k m

-- `map[k] = v`
unfoldable pub insert : Bytes → Bytes → Map → Map
insert k v [] = (k, v) ∷ []
insert k v ((j, w) ∷ m) =
    if bytes_eq k j
    then (k, v) ∷ m
    else if bytes_lt k j
    then (k, v) ∷ (j, w) ∷ m
    else (j, w) ∷ insert k v m

-- `map.erase(k)`
unfoldable pub erase : Bytes → Map → Map
erase k [] = []
erase k ((j, w) ∷ m) = let rest = erase k m in if bytes_eq k j then rest else (j, w) ∷ rest

-- `map.at(k)`
unfoldable pub at : Bytes → Map → Result Bytes
at k m = elim (lookup k m) [ none ↦ err out_of_range | some v ↦ ok v ]

pub lookup-insert :
    (k j v : Bytes) (m : Map)
    → lookup j (insert k v m) ≡ (if bytes_eq j k then some v else lookup j m)
unfolding lookup insert
lookup-insert k j v [] = refl
lookup-insert k j v ((i, w) ∷ m) =
    ground (arith, bytes_eq_iff j k, bytes_eq_iff k i, bytes_eq_iff j i, lookup-insert k j v m)

pub lookup-erase :
    (k j : Bytes) (m : Map) → lookup j (erase k m) ≡ (if bytes_eq j k then none else lookup j m)
unfolding lookup erase
lookup-erase k j [] = ground arith
lookup-erase k j ((i, w) ∷ m) =
    ground (arith, bytes_eq_iff j k, bytes_eq_iff k i, bytes_eq_iff j i, lookup-erase k j m)
