-- ===== src/Http/Query/Bounds.antt =====
-- The iterators of `ParseQuery` stay inside the string and in order, and nothing empty is stored.
use tv_cast.Prelude.{
  ℕ, ◌+◌, ◌-◌, ◌≤◌, [], ◌∷◌, ◌≡◌, ◌≢◌, ap, arith, some, ◌==◌, false, length, drop, slice,
  length-take, length-drop, Bytes, Map, insert, lookup, Bool-cases, inl, inr, ==_iff, lookup-insert,
}
use tv_cast.Http.Query.{Cursor, store, step, scan, start, parse_query}

-- Both iterator ranges are valid, and end at or before `it`.
pub record InRange (it : ℕ) (q : Cursor) : Type 0 where
  pub key_order : q.key_begin ≤ q.key_end
  pub key_bound : q.key_end ≤ it
  pub value_order : q.value_begin ≤ q.value_end
  pub value_bound : q.value_end ≤ it

step-InRange :
    (str : Bytes) (it c : ℕ) (q : Cursor) → InRange it q → InRange (it + 1) (step str it c q)
unfolding step
step-InRange str it c q v = ground arith

scan-InRange :
    (str rest : Bytes) (it : ℕ) (q : Cursor)
    → InRange it q
    → InRange (it + length rest) (scan str it rest q)
unfolding scan
scan-InRange str [] it q v = ground arith
scan-InRange str (c ∷ rest) it q v =
    let r = scan-InRange str rest (it + 1) (step str it c q) (step-InRange str it c q v) in
    record {
      key_order = r.key_order;
      key_bound = omega (arith, r.key_bound);
      value_order = r.value_order;
      value_bound = omega (arith, r.value_bound);
    }

-- After each prefix of the query the four iterators are in order and inside that prefix.
pub scan-start-InRange :
    (str pre : Bytes) (m : Map) → InRange (length pre) (scan str 0 pre (start m))
scan-start-InRange str pre m =
    let r = scan-InRange str pre 0 (start m) (omega arith) in
    record {
      key_order = r.key_order;
      key_bound = omega (arith, r.key_bound);
      value_order = r.value_order;
      value_bound = omega (arith, r.value_bound);
    }

slice-ne-nil :
    (b e : ℕ) (str : Bytes) → b ≤ e → e ≤ length str → (b == e) ≡ false → slice b e str ≢ []
slice-ne-nil b e str o h d nil =
    ground (arith, length-drop b str, length-take (e - b) (drop b str), ap length nil)

-- No parameter has an empty value.
abbrev pub HasValues : Map → Type 0
HasValues m = (k : Bytes) → lookup k m ≢ some []

insert-HasValues : (k v : Bytes) (m : Map) → v ≢ [] → HasValues m → HasValues (insert k v m)
insert-HasValues k v m ne h j e = ground (arith, lookup-insert k j v m, h j)

store-HasValues :
    (str : Bytes) (q : Cursor)
    → q.value_begin ≤ q.value_end
    → q.value_end ≤ length str
    → HasValues q.query_parameters
    → HasValues (store str q)
unfolding store
store-HasValues str q o b h = elim (Bool-cases (q.value_begin == q.value_end)) [
  | inl same ↦ λ j. rw same (ground (arith, h j))
  | inr differ ↦
      let nonempty = slice-ne-nil q.value_begin q.value_end str o b differ in
      λ j. ground (
        arith,
        h j,
        insert-HasValues (slice q.key_begin q.key_end str) (slice q.value_begin q.value_end str)
            q.query_parameters nonempty h j,
      )
]

step-HasValues :
    (str : Bytes) (it c : ℕ) (q : Cursor)
    → it ≤ length str
    → InRange it q
    → HasValues q.query_parameters
    → HasValues (step str it c q).query_parameters
unfolding step
step-HasValues str it c q b v h = elim (Bool-cases (c == b'&')) [
  | inl amp ↦
      let stored = store-HasValues str (record q { value_end = it }) (omega arith) b h in
      λ j. rw ((==_iff c b'&').0 amp) (ground (arith, stored j))
  | inr other ↦ λ j. rw other (ground (arith, h j))
]

scan-HasValues :
    (str rest : Bytes) (it : ℕ) (q : Cursor)
    → it + length rest ≤ length str
    → InRange it q
    → HasValues q.query_parameters
    → HasValues (scan str it rest q).query_parameters
unfolding scan
scan-HasValues str [] it q b v h = h
scan-HasValues str (c ∷ rest) it q b v h =
    scan-HasValues str rest (it + 1) (step str it c q) (omega arith) (step-InRange str it c q v)
      (step-HasValues str it c q (omega arith) v h)

-- `ParseQuery` leaves a map without empty values free of them, whatever the query string is.
pub parse_query-HasValues : (str : Bytes) (m : Map) → HasValues m → HasValues (parse_query str m)
unfolding parse_query
parse_query-HasValues str m h =
    let range = scan-start-InRange str str m in
    let q = scan str 0 str (start m) in
    store-HasValues str (record q { value_end = length str })
      (omega (arith, range.value_order, range.value_bound)) (omega arith)
      (scan-HasValues str str 0 (start m) (omega arith) (omega arith) h)
