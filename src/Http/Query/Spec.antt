-- ===== src/Http/Query/Spec.antt =====
-- That `ParseQuery` enters the pairs of the pieces of a query.
use tv_cast.Prelude.{
  ℕ, ◌+◌, true, false, [], ◌∷◌, ◌++◌, ◌≡◌, refl, ap, ◌∙◌, arith, append_assoc, Option, none, some,
  ◌==◌, Bool-cases, inl, inr, length, ==_iff, slice, length-append, slice-append, Bytes, Map,
}
use tv_cast.Http.Query.{Cursor, store, step, scan, start, parse_query}
use tv_cast.Http.Query.Pieces.{
  segments, split_last, add_pair, add_all, EndsPlain, split_last-equals, snoc_value,
  split_last-concat, Splits, split_last-Splits,
}

-- Where the cursor stands when the current piece, which begins after `pre`, has been read so far.
abbrev Located : ℕ → Option (Bytes × Bytes) → ℕ → ℕ → Type 0
Located n none key_end value_begin = key_end ≡ n
Located n (some (k, v)) key_end value_begin =
    (key_end ≡ n + length k) × (value_begin ≡ n + length k + 1)

record Tracks (pre seg : Bytes) (q : Cursor) : Type 0 where
  begins : q.key_begin ≡ length pre
  located : Located (length pre) (split_last seg) q.key_end q.value_begin

module _ (str pre seg rest k v : Bytes) (s : seg ≡ k ++ (b'=' ∷ v))
    (e : str ≡ pre ++ (seg ++ rest)) where
  split_str : str ≡ pre ++ ((k ++ (b'=' ∷ v)) ++ rest)
  split_str = e ∙ ap (λ z. pre ++ (z ++ rest)) s

  slice_key : slice (length pre) (length pre + length k) str ≡ k
  slice_key =
      slice-append str pre k (b'=' ∷ (v ++ rest)) _ _ (split_str ∙ simp append_assoc) refl refl

  slice_value : slice (length pre + length k + 1) (length pre + length seg) str ≡ v
  slice_value =
      slice-append str (pre ++ (k ++ b'=' ∷ [])) v rest _ _ (split_str ∙ simp append_assoc)
        (omega (arith, length-append pre (k ++ b'=' ∷ []), length-append k (b'=' ∷ [])))
        (omega (arith, ap length s, length-append k (b'=' ∷ v)))

module _ (str pre rest : Bytes) (q : Cursor) where
  store-Located :
      (seg : Bytes) (o : Option (Bytes × Bytes))
      → Splits seg o
      → str ≡ pre ++ (seg ++ rest)
      → q.key_begin ≡ length pre
      → Located (length pre) o q.key_end q.value_begin
      → q.value_end ≡ length pre + length seg
      → store str q ≡ add_pair o q.query_parameters
  unfolding store add_pair
  store-Located seg none s e b l v = ground arith
  store-Located seg (some ([], w)) s e b l v = ground arith
  store-Located seg (some (k ∷ ks, [])) s e b l v =
      ground (arith, ap length s, length-append (k ∷ ks) (b'=' ∷ []))
  store-Located seg (some (k ∷ ks, w ∷ ws)) s e b l v =
      rw (b, l.0, l.1, v)
        (ground (
          arith,
          ap length s,
          length-append (k ∷ ks) (b'=' ∷ w ∷ ws),
          slice_key str pre seg rest (k ∷ ks) (w ∷ ws) s e,
          slice_value str pre seg rest (k ∷ ks) (w ∷ ws) s e,
        ))

Located-snoc_value :
    (n c : ℕ) (o : Option (Bytes × Bytes)) (x y : ℕ)
    → Located n o x y
    → Located n (snoc_value o c) x y
Located-snoc_value n c none x y l = l
Located-snoc_value n c (some (k, v)) x y l = l

-- How one character moves the cursor: '=' that is not the last one, any other, '&'.
module _ (str pre seg : Bytes) (it : ℕ) (q : Cursor) (t : Tracks pre seg q) where
  Tracks-equals :
      (c : ℕ)
      → c ≡ b'='
      → it ≡ length pre + length seg
      → (it + 1 == length str) ≡ false
      → Tracks pre (seg ++ c ∷ []) (step str it c q)
        × ((step str it c q).query_parameters ≡ q.query_parameters)
  unfolding step
  Tracks-equals c is p h = rw is (
    record {
      begins = ground (arith, t.begins);
      located = rw (split_last-equals seg) (ground arith);
    },
    ground arith,
  )

  Tracks-plain :
      (c : ℕ)
      → (c == b'=') ≡ false
      → (c == b'&') ≡ false
      → Tracks pre (seg ++ c ∷ []) (step str it c q)
        × ((step str it c q).query_parameters ≡ q.query_parameters)
  unfolding step
  Tracks-plain c ne na =
      rw (ne, na)
        (
          record {
            begins = t.begins;
            located = rw (split_last-concat seg c ne) (
                Located-snoc_value (length pre) c (split_last seg) q.key_end q.value_begin
                  t.located);
          },
          refl,
        )

  Tracks-ampersand :
      (c : ℕ) (rest : Bytes)
      → c ≡ b'&'
      → it ≡ length pre + length seg
      → str ≡ pre ++ (seg ++ rest)
      → (it + 1 == length str) ≡ false
      → Tracks (pre ++ (seg ++ c ∷ [])) [] (step str it c q)
        × ((step str it c q).query_parameters ≡ add_pair (split_last seg) q.query_parameters)
  unfolding step split_last
  Tracks-ampersand c rest is p e h =
      let stored =
        store-Located str pre rest (record q { value_end = it }) seg (split_last seg)
          (split_last-Splits seg) e t.begins t.located p in
      let at_next : it + 1 ≡ length (pre ++ (seg ++ b'&' ∷ [])) =
        omega (arith, length-append pre (seg ++ b'&' ∷ []), length-append seg (b'&' ∷ [])) in
      rw (is, h) (record { begins = at_next; located = at_next }, stored)

segments-cut :
    (c : ℕ) (seg cs : Bytes) → (c == b'&') ≡ true → segments seg (c ∷ cs) ≡ seg ∷ segments [] cs
unfolding segments
segments-cut c seg cs h = rw h

segments-plain :
    (c : ℕ) (seg cs : Bytes)
    → (c == b'&') ≡ false
    → segments seg (c ∷ cs) ≡ segments (seg ++ c ∷ []) cs
unfolding segments
segments-plain c seg cs h = rw h

not_last :
    (str pre seg : Bytes) (c d it : ℕ) (cs : Bytes)
    → it ≡ length pre + length seg
    → str ≡ pre ++ (seg ++ c ∷ d ∷ cs)
    → (it + 1 == length str) ≡ false
not_last str pre seg c d it cs p e =
    ground
      (arith, ap length e, length-append pre (seg ++ c ∷ d ∷ cs), length-append seg (c ∷ d ∷ cs))

scan_lem :
    (rest str pre seg : Bytes) (it : ℕ) (q : Cursor)
    → it ≡ length pre + length seg
    → str ≡ pre ++ (seg ++ rest)
    → EndsPlain rest
    → Tracks pre seg q
    → store str (record (scan str it rest q) { value_end = length str })
      ≡ add_all (segments seg rest) q.query_parameters
unfolding scan
scan_lem [] str pre seg it q p e plain t =
    unfold segments add_all in
    store-Located str pre [] (record q { value_end = length str }) seg (split_last seg)
      (split_last-Splits seg) e t.begins t.located
      (omega (arith, ap length e, length-append pre (seg ++ []), length-append seg []))
scan_lem (c ∷ []) str pre seg it q p e plain t =
    let (t', kept) = Tracks-plain str pre seg it q t c plain.0 plain.1 in
    scan_lem [] str pre (seg ++ c ∷ []) (it + 1) (step str it c q)
      (omega (arith, p, length-append seg (c ∷ []))) (e ∙ simp append_assoc) tt t'
    ∙ rw (kept, segments-plain c seg [] plain.1)
scan_lem (c ∷ d ∷ cs) str pre seg it q p e plain t = elim (Bool-cases (c == b'&')) [
  | inl amp ↦
      let (t', added) =
        Tracks-ampersand str pre seg it q t c (c ∷ d ∷ cs) ((==_iff c b'&').0 amp) p e
          (not_last str pre seg c d it cs p e) in
      scan_lem (d ∷ cs) str (pre ++ (seg ++ c ∷ [])) [] (it + 1) (step str it c q)
        (omega (arith, p, length-append pre (seg ++ c ∷ []), length-append seg (c ∷ [])))
        (e ∙ simp append_assoc) plain t'
      ∙ rw (added, segments-cut c seg (d ∷ cs) amp) (unfold add_all in refl)
  | inr na ↦ elim (Bool-cases (c == b'=')) [
    | inl eq ↦
        let (t', kept) =
          Tracks-equals str pre seg it q t c ((==_iff c b'=').0 eq) p
            (not_last str pre seg c d it cs p e) in
        scan_lem (d ∷ cs) str pre (seg ++ c ∷ []) (it + 1) (step str it c q)
          (omega (arith, p, length-append seg (c ∷ []))) (e ∙ simp append_assoc) plain t'
        ∙ rw (kept, segments-plain c seg (d ∷ cs) na)
    | inr ne ↦
        let (t', kept) = Tracks-plain str pre seg it q t c ne na in
        scan_lem (d ∷ cs) str pre (seg ++ c ∷ []) (it + 1) (step str it c q)
          (omega (arith, p, length-append seg (c ∷ []))) (e ∙ simp append_assoc) plain t'
        ∙ rw (kept, segments-plain c seg (d ∷ cs) na)
  ]
]

-- For a query that ends in neither '=' nor '&', `parse_query` enters exactly the pairs of its
-- pieces, left to right, over what the map held before.
pub parse_query-add_all :
    (str : Bytes) (m : Map) → EndsPlain str → parse_query str m ≡ add_all (segments [] str) m
unfolding parse_query split_last
parse_query-add_all str m plain =
    scan_lem str str [] [] 0 (start m) refl refl plain (record { begins = refl; located = refl })
