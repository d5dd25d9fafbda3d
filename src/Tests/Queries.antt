-- ===== src/Tests/Queries.antt =====
-- Query strings.
use tv_cast.Prelude.{◌≡◌, refl, [], ◌∷◌, codes, Bytes, lookup, some, insert, bytes_eq, bytes_lt}
use tv_cast.Http.Query.{parse_query, store, scan, step, start}
use tv_cast.Http.Query.Spec.{parse_query-add_all}
use tv_cast.Http.Query.Pieces.{add_all, segments}
use tv_cast.Http.Query.Bounds.{InRange, scan-start-InRange, HasValues, parse_query-HasValues}
use tv_cast.Http.Query.Faults.{parse_query-trailing_equals, parse_query-trailing_ampersand}

abbrev text : Bytes
text = codes "a=1&&b=2=3&c&=4&a=5"

parse_query-add_all_example : parse_query text [] ≡ add_all (segments [] text) []
parse_query-add_all_example = parse_query-add_all text [] (refl, refl)

values : parse_query text [] ≡ (codes "a", codes "5") ∷ (codes "b=2", codes "3") ∷ []
unfolding parse_query store scan step insert bytes_eq bytes_lt
values = refl

scan-start-InRange_example : InRange 4 (scan text 0 (codes "a=1&") (start []))
scan-start-InRange_example = scan-start-InRange text (codes "a=1&") []

parse_query-HasValues_example : HasValues (parse_query text [])
unfolding lookup
parse_query-HasValues_example = parse_query-HasValues text [] (λ k e. cc e)

parse_query-trailing_equals_example :
    lookup (codes "ab") (parse_query (codes "ab=") []) ≡ some (codes "ab=")
parse_query-trailing_equals_example =
    parse_query-trailing_equals (codes "ab") [] (λ e. cc e) (refl, refl, (refl, refl, tt))

parse_query-trailing_ampersand_example :
    lookup (codes "a") (parse_query (codes "a=1&") []) ≡ some (codes "1&")
parse_query-trailing_ampersand_example =
    parse_query-trailing_ampersand (codes "a") (codes "1") [] (λ e. cc e) (λ e. cc e)
      (refl, refl, tt) (refl, refl, tt)
