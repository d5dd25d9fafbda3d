-- ===== src/Prelude/Order.antt =====
-- The order of the entries of a `std::map`.
use mathlib.Core.Path.{◌≡◌, refl, sym, ap, ◌∙◌, subst}
use mathlib.Core.Logic.{inl, inr}
use mathlib.Core.Bool.{true, false}
use mathlib.Core.Option.{none, some}
use mathlib.Core.List.{[], ◌∷◌}
use native.Mathlib.Omega.{arith}
use tv_cast.Prelude.Tests.{if◌then◌else◌, Bool-cases}
use tv_cast.Prelude.Strings.{Bytes, bytes_eq, bytes_lt, bytes_eq_iff, bytes_eq_refl}
use tv_cast.Prelude.Maps.{Map, lookup, insert}

bytes_lt_irrefl : (xs : Bytes) → bytes_lt xs xs ≡ false
unfolding bytes_lt
bytes_lt_irrefl [] = refl
bytes_lt_irrefl (x ∷ xs) = ground (arith, bytes_lt_irrefl xs)

bytes_lt_trans :
    (xs ys zs : Bytes) → bytes_lt xs ys ≡ true → bytes_lt ys zs ≡ true → bytes_lt xs zs ≡ true
unfolding bytes_lt
bytes_lt_trans [] [] zs h k = cc
bytes_lt_trans [] (y ∷ ys) [] h k = cc
bytes_lt_trans [] (y ∷ ys) (z ∷ zs) h k = refl
bytes_lt_trans (x ∷ xs) [] zs h k = cc
bytes_lt_trans (x ∷ xs) (y ∷ ys) [] h k = cc
bytes_lt_trans (x ∷ xs) (y ∷ ys) (z ∷ zs) h k = ground (arith, bytes_lt_trans xs ys zs)

bytes_lt_total :
    (xs ys : Bytes) → bytes_lt xs ys ≡ false → bytes_eq xs ys ≡ false → bytes_lt ys xs ≡ true
unfolding bytes_lt bytes_eq
bytes_lt_total [] [] h k = cc
bytes_lt_total [] (y ∷ ys) h k = cc
bytes_lt_total (x ∷ xs) [] h k = refl
bytes_lt_total (x ∷ xs) (y ∷ ys) h k = ground (arith, bytes_lt_total xs ys)

-- Every key of the map is above this one.
abbrev pub Above : Bytes → Map → Type 0
Above k [] = Unit {0}
Above k ((j, w) ∷ m) = (bytes_lt k j ≡ true) × Above k m

-- The entries stand in the order of a `std::map`.
abbrev pub IsSorted : Map → Type 0
IsSorted [] = Unit {0}
IsSorted ((j, w) ∷ m) = Above j m × IsSorted m

Above-trans : (i j : Bytes) (m : Map) → bytes_lt i j ≡ true → Above j m → Above i m
Above-trans i j [] lt above = tt
Above-trans i j ((k, w) ∷ m) lt (first, above) =
    (bytes_lt_trans i j k lt first, Above-trans i j m lt above)

pub lookup-Above : (k : Bytes) (m : Map) → Above k m → lookup k m ≡ none
unfolding lookup
lookup-Above k [] above = refl
lookup-Above k ((j, w) ∷ m) (first, above) =
    ground (arith, lookup-Above k m above, bytes_eq_iff k j, bytes_lt_irrefl k)

insert-Above : (i k v : Bytes) (m : Map) → bytes_lt i k ≡ true → Above i m → Above i (insert k v m)
unfolding insert
insert-Above i k v [] lt above = (lt, tt)
insert-Above i k v ((j, w) ∷ m) lt (first, above) = elim (Bool-cases (bytes_eq k j)) [
  | inl same ↦ rw same (lt, above)
  | inr other ↦ elim (Bool-cases (bytes_lt k j)) [
    | inl less ↦ rw (other, less) (lt, (first, above))
    | inr more ↦ rw (other, more) (first, insert-Above i k v m lt above)
  ]
]

pub insert-IsSorted : (k v : Bytes) (m : Map) → IsSorted m → IsSorted (insert k v m)
unfolding insert
insert-IsSorted k v [] sorted = (tt, tt)
insert-IsSorted k v ((j, w) ∷ m) (above, sorted) = elim (Bool-cases (bytes_eq k j)) [
  | inl same ↦ rw same (subst (λ i. Above i m) (sym ((bytes_eq_iff k j).0 same)) above, sorted)
  | inr other ↦ elim (Bool-cases (bytes_lt k j)) [
    | inl less ↦ rw (other, less) ((less, Above-trans k j m less above), (above, sorted))
    | inr more ↦
        rw (other, more)
          (insert-Above j k v m (bytes_lt_total k j more other) above, insert-IsSorted k v m sorted)
  ]
]

lookup-head : (k v : Bytes) (m : Map) → lookup k ((k, v) ∷ m) ≡ some v
unfolding lookup
lookup-head k v m = ap (λ b. if b then some v else lookup k m) (bytes_eq_refl k)

-- Two maps that look the same are the same.
heads-equal :
    (i v j w : Bytes) (a b : Map)
    → Above i a
    → Above j b
    → ((k : Bytes) → lookup k ((i, v) ∷ a) ≡ lookup k ((j, w) ∷ b))
    → bytes_eq i j ≡ true
heads-equal i v j w a b above below same = elim (Bool-cases (bytes_eq i j)) [
  | inl equal ↦ equal
  | inr other ↦ elim (Bool-cases (bytes_lt i j)) [
    | inl less ↦ absurd (
        cc (
          sym (lookup-head i v a)
          ∙ same i
          ∙ lookup-Above i ((j, w) ∷ b) (less, Above-trans i j b less below)))
    | inr more ↦
        let less = bytes_lt_total i j more other in
        absurd (
          cc (
            sym (lookup-head j w b)
            ∙ sym (same j)
            ∙ lookup-Above j ((i, v) ∷ a) (less, Above-trans j i a less above)))
  ]
]

tails-equal :
    (i v w : Bytes) (a b : Map)
    → Above i a
    → Above i b
    → ((k : Bytes) → lookup k ((i, v) ∷ a) ≡ lookup k ((i, w) ∷ b))
    → (k : Bytes) → lookup k a ≡ lookup k b
unfolding lookup
tails-equal i v w a b above below same k = elim (Bool-cases (bytes_eq k i)) [
  | inl equal ↦
      let at : k ≡ i = (bytes_eq_iff k i).0 equal in
      lookup-Above k a (subst (λ x. Above x a) (sym at) above)
      ∙ sym (lookup-Above k b (subst (λ x. Above x b) (sym at) below))
  | inr other ↦
      sym (ap (λ t. if t then some v else lookup k a) other)
      ∙ same k
      ∙ ap (λ t. if t then some w else lookup k b) other
]

pub maps-equal :
    (a b : Map) → IsSorted a → IsSorted b → ((k : Bytes) → lookup k a ≡ lookup k b) → a ≡ b
maps-equal [] [] sorted sorted' same = refl
maps-equal [] ((j, w) ∷ b) sorted sorted' same =
    absurd (unfold lookup in cc (same j ∙ lookup-head j w b))
maps-equal ((i, v) ∷ a) [] sorted sorted' same =
    absurd (unfold lookup in cc (sym (lookup-head i v a) ∙ same i))
maps-equal ((i, v) ∷ a) ((j, w) ∷ b) (above, sorted) (below, sorted') same =
    let at : i ≡ j = (bytes_eq_iff i j).0 (heads-equal i v j w a b above below same) in
    let same' : (k : Bytes) → lookup k ((i, v) ∷ a) ≡ lookup k ((i, w) ∷ b) =
      λ k. same k ∙ ap (λ x. lookup k ((x, w) ∷ b)) (sym at) in
    let value : some v ≡ some w = sym (lookup-head i v a) ∙ same' i ∙ lookup-head i w b in
    let rest : a ≡ b =
      maps-equal a b sorted sorted'
        (tails-equal i v w a b above (subst (λ x. Above x b) (sym at) below) same') in
    cc (at, value, rest)
