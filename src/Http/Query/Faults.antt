-- ===== src/Http/Query/Faults.antt =====
-- Where `ParseQuery` departs from the meaning of a query: a trailing '=' or '&'. The value of the
-- last pair then begins or ends at the wrong place.
use native.Mathlib.Nat.{add_assoc, zero-add}
use tv_cast.Prelude.{
  ℕ, ◌+◌, [], ◌∷◌, ◌++◌, ◌≡◌, ◌≢◌, refl, ap, ◌∙◌, arith, some, ◌==◌, false, length, slice,
  length-append, slice-append, Bytes, Map, lookup, sym, lookup-insert, append_assoc, append-nil,
  bytes_eq_refl,
}
use tv_cast.Http.Query.{Cursor, store, step, scan, start, parse_query}

-- No '=' and no '&'.
abbrev pub IsPlain : Bytes → Type 0
IsPlain [] = Unit
IsPlain (c ∷ cs) = ((c == b'=') ≡ false) × ((c == b'&') ≡ false) × IsPlain cs

scan-plain :
    (str xs rest : Bytes) (it : ℕ) (q : Cursor)
    → IsPlain xs
    → scan str it (xs ++ rest) q ≡ scan str (it + length xs) rest q
unfolding scan step
scan-plain str [] rest it q h = ap (λ n. scan str n rest q) (omega arith)
scan-plain str (c ∷ xs) rest it q h =
    ground (arith, scan-plain str xs rest (it + 1) q h.2, add_assoc it 1 (length xs))

-- The cursor at the end of a query that is one key and a trailing '='.
scan-trailing_equals :
    (k : Bytes) (m : Map)
    → IsPlain k
    → scan (k ++ b'=' ∷ []) 0 (k ++ b'=' ∷ []) (start m) ≡ record (start m) { key_end = length k }
unfolding scan step
scan-trailing_equals k m h =
    rw (scan-plain (k ++ b'=' ∷ []) k (b'=' ∷ []) 0 (start m) h)
      (ground (arith, length-append k (b'=' ∷ [])))

lookup-store :
    (str k v : Bytes) (q : Cursor)
    → (q.key_begin == q.key_end) ≡ false
    → (q.value_begin == q.value_end) ≡ false
    → slice q.key_begin q.key_end str ≡ k
    → slice q.value_begin q.value_end str ≡ v
    → lookup k (store str q) ≡ some v
unfolding store
lookup-store str k v q kd vd ks vs =
    rw (kd, vd, ks, vs) (rw (lookup-insert k k v q.query_parameters, bytes_eq_refl k))

length-ne-zero : (k : Bytes) → k ≢ [] → (0 == length k) ≡ false
length-ne-zero [] ne = absurd (ne refl)
length-ne-zero (c ∷ k) ne = ground arith

-- A query that is one key, not empty and free of '=' and '&', and a '=' behind it, gives that key
-- the whole query as its value, not the empty value.
pub parse_query-trailing_equals :
    (k : Bytes) (m : Map)
    → k ≢ []
    → IsPlain k
    → lookup k (parse_query (k ++ b'=' ∷ []) m) ≡ some (k ++ b'=' ∷ [])
unfolding parse_query
parse_query-trailing_equals k m ne h =
    let whole = k ++ b'=' ∷ [] in
    rw (scan-trailing_equals k m h) (
      lookup-store whole k whole _ (length-ne-zero k ne)
        (ground (arith, length-append k (b'=' ∷ [])))
        (slice-append whole [] k (b'=' ∷ []) 0 (length k) refl refl (omega arith))
        (slice-append whole [] whole [] 0 (length whole) (sym (append-nil whole)) refl
          (omega arith)))

module _ (k v : Bytes) (m : Map) (hk : IsPlain k) (hv : IsPlain v) (ne : v ≢ []) where
  -- `key=value&`.
  abbrev query : Bytes
  query = k ++ (b'=' ∷ (v ++ b'&' ∷ []))

  abbrev at_value : Cursor
  at_value = record {
    key_begin = 0;
    key_end = length k;
    value_begin = length k + 1;
    value_end = length k + 1;
    query_parameters = m;
  }

  abbrev at_end : Cursor
  at_end = record at_value { value_end = length k + 1 + length v }

  length-query : length query ≡ length k + 1 + length v + 1
  length-query =
      omega (arith, length-append k (b'=' ∷ (v ++ b'&' ∷ [])), length-append v (b'&' ∷ []))

  step-equals : step query (length k) b'=' (start m) ≡ at_value
  unfolding step
  step-equals = ground (arith, length-query, length-ne-zero v ne)

  step-ampersand :
      step query (length k + 1 + length v) b'&' at_value
      ≡ record at_end { query_parameters = store query at_end }
  unfolding step
  step-ampersand = ground (arith, length-query)

  scan-trailing_ampersand :
      scan query 0 query (start m) ≡ record at_end { query_parameters = store query at_end }
  unfolding scan
  scan-trailing_ampersand =
      scan-plain query k (b'=' ∷ (v ++ b'&' ∷ [])) 0 (start m) hk
      ∙ ap (λ n. scan query n (b'=' ∷ (v ++ b'&' ∷ [])) (start m)) (zero-add (length k))
      ∙ ap (scan query (length k + 1) (v ++ b'&' ∷ [])) step-equals
      ∙ scan-plain query v (b'&' ∷ []) (length k + 1) at_value hv
      ∙ step-ampersand

-- A query that is one pair, whose key and value are not empty and free of '=' and '&', and a '&'
-- behind it, gives the key the value with the '&'.
pub parse_query-trailing_ampersand :
    (k v : Bytes) (m : Map)
    → k ≢ []
    → v ≢ []
    → IsPlain k
    → IsPlain v
    → lookup k (parse_query (k ++ (b'=' ∷ (v ++ b'&' ∷ []))) m) ≡ some (v ++ b'&' ∷ [])
unfolding parse_query
parse_query-trailing_ampersand k v m nk nv hk hv =
    let whole = query k v m hk hv nv in
    let split : whole ≡ (k ++ b'=' ∷ []) ++ ((v ++ b'&' ∷ []) ++ []) =
      simp (append_assoc, append-nil) in
    rw (scan-trailing_ampersand k v m hk hv nv) (
      lookup-store whole k (v ++ b'&' ∷ []) _ (length-ne-zero k nk)
        (ground (arith, length-query k v m hk hv nv))
        (slice-append whole [] k (b'=' ∷ (v ++ b'&' ∷ [])) 0 (length k) refl refl (omega arith))
        (slice-append whole (k ++ b'=' ∷ []) (v ++ b'&' ∷ []) [] (length k + 1) (length whole) split
          (omega (arith, length-append k (b'=' ∷ [])))
          (omega (arith, length-query k v m hk hv nv, length-append v (b'&' ∷ [])))))
