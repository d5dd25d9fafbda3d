-- ===== src/Http/Query.antt =====
-- `Url::ParseQuery` of anet/http/url.cc. An iterator into the query is its distance from `begin()`.
pub mod Pieces
pub mod Spec
pub mod Bounds
pub mod Faults
use tv_cast.Prelude.{
  ℕ, ◌+◌, Bool, not, ◌&&◌, List, [], ◌∷◌, ◌==◌, if◌then◌else◌, length, slice, Bytes, Map, insert,
}

-- The local variables of `ParseQuery`, with the map that it fills.
pub record Cursor : Type 0 where
  pub key_begin : ℕ
  pub key_end : ℕ
  pub value_begin : ℕ
  pub value_end : ℕ
  pub query_parameters : Map

-- `if ((key_begin != key_end) && (value_begin != value_end)) query_parameters_[...] = ...`
unfoldable pub store : Bytes → Cursor → Map
store str q =
    if not (q.key_begin == q.key_end) && not (q.value_begin == q.value_end)
    then insert (slice q.key_begin q.key_end str) (slice q.value_begin q.value_end str)
        q.query_parameters
    else q.query_parameters

-- The branch `'=' == *it`.
at_equals : Bytes → ℕ → Cursor → Cursor
at_equals str it q =
    if it + 1 == length str
    then record q { key_end = it }
    else record q { key_end = it; value_begin = it + 1; value_end = it + 1 }

-- The branch `'&' == *it`.
at_ampersand : Bytes → ℕ → Cursor → Cursor
at_ampersand str it q =
    let stored = record q {
      value_end = it;
      query_parameters = store str (record q { value_end = it });
    } in
    if it + 1 == length str then stored else record stored { key_begin = it + 1; key_end = it + 1 }

-- One round of the loop.
unfoldable pub step : Bytes → ℕ → ℕ → Cursor → Cursor
unfolding store at_equals at_ampersand
step str it c q =
    let q' = if c == b'=' then at_equals str it q else q in
    if c == b'&' then at_ampersand str it q' else q'

-- The loop, over the characters from `it` on.
unfoldable pub scan : Bytes → ℕ → Bytes → Cursor → Cursor
scan str it [] q = q
scan str it (c ∷ cs) q = scan str (it + 1) cs (step str it c q)

abbrev pub start : Map → Cursor
start m = record {
  key_begin = 0;
  key_end = 0;
  value_begin = 0;
  value_end = 0;
  query_parameters = m;
}

-- `ParseQuery(str)` on a `Url` whose parameters are `m`.
unfoldable pub parse_query : Bytes → Map → Map
parse_query str m =
    let q = scan str 0 str (start m) in store str (record q { value_end = length str })
