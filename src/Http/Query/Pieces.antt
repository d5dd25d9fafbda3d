-- ===== src/Http/Query/Pieces.antt =====
-- What a query string means, independently of iterators: it is cut at each '&', and a piece at its
-- last '='; a piece with an empty key or value, or with no '=', says nothing.
use tv_cast.Prelude.{
  ℕ, false, List, [], ◌∷◌, ◌++◌, ◌≡◌, refl, arith, Option, none, some, ◌==◌, if◌then◌else◌, ==_iff,
  Bytes, Map, insert,
}

-- The pieces between the '&'s; `seg` is what the current piece holds so far.
unfoldable pub segments : Bytes → Bytes → List Bytes
segments seg [] = seg ∷ []
segments seg (c ∷ cs) =
    let cut = seg ∷ segments [] cs in
    let joined = segments (seg ++ c ∷ []) cs in if c == b'&' then cut else joined

-- Key and value around the last '='.
unfoldable pub split_last : Bytes → Option (Bytes × Bytes)
split_last [] = none
split_last (c ∷ cs) = elim (split_last cs) [
  | some (k, v) ↦ some (c ∷ k, v)
  | none ↦ if c == b'=' then some ([], cs) else none
]

unfoldable pub add_pair : Option (Bytes × Bytes) → Map → Map
add_pair none m = m
add_pair (some ([], v)) m = m
add_pair (some (k ∷ ks, [])) m = m
add_pair (some (k ∷ ks, v ∷ vs)) m = insert (k ∷ ks) (v ∷ vs) m

unfoldable pub add_all : List Bytes → Map → Map
unfolding split_last add_pair
add_all [] m = m
add_all (s ∷ ss) m = add_all ss (add_pair (split_last s) m)

-- The query ends in neither '=' nor '&'.
abbrev pub EndsPlain : Bytes → Type 0
EndsPlain [] = Unit
EndsPlain (c ∷ []) = ((c == b'=') ≡ false) × ((c == b'&') ≡ false)
EndsPlain (c ∷ d ∷ cs) = EndsPlain (d ∷ cs)

pub split_last-equals : (s : Bytes) → split_last (s ++ b'=' ∷ []) ≡ some (s, [])
unfolding split_last
split_last-equals [] = refl
split_last-equals (c ∷ s) = rw (split_last-equals s)

abbrev pub snoc_value : Option (Bytes × Bytes) → ℕ → Option (Bytes × Bytes)
snoc_value none c = none
snoc_value (some (k, v)) c = some (k, v ++ c ∷ [])

pub split_last-concat :
    (s : Bytes) (c : ℕ)
    → (c == b'=') ≡ false
    → split_last (s ++ c ∷ []) ≡ snoc_value (split_last s) c
unfolding split_last
split_last-concat [] c h = rw h
split_last-concat (d ∷ s) c h = ground (arith, split_last-concat s c h)

abbrev pub Splits : Bytes → Option (Bytes × Bytes) → Type 0
Splits s none = Unit
Splits s (some (k, v)) = s ≡ k ++ (b'=' ∷ v)

pub split_last-Splits : (s : Bytes) → Splits s (split_last s)
unfolding split_last
split_last-Splits [] = tt
split_last-Splits (c ∷ s) = ground (arith, split_last-Splits s, ==_iff c b'=')
