-- ===== src/Http/Url/Values.antt =====
-- What `GetQueryParameter` can return.
use tv_cast.Prelude.{[], ◌∷◌, ◌≡◌, ◌≢◌, arith, Bytes, lookup, ok, length, ◌%◌, ◌^◌, false}
use tv_cast.Http.CParser.{HttpParserLib, uf_query}
use tv_cast.Http.Query.Bounds.{HasValues, parse_query-HasValues}
use tv_cast.Http.Url.{Url, empty, get_string, get_query_parameter, parse, of_string}

module _ (lib : HttpParserLib) where
  open lib use {http_parser_parse_url}

  -- `Url::Parse` keeps the query parameters free of empty values, whether the URL parses or not.
  pub parse-HasValues :
      (str : Bytes) (url : Url) {url' : Url}
      → HasValues url.query_parameters
      → parse lib str url ≡ ok url'
      → HasValues url'.query_parameters
  unfolding parse
  parse-HasValues [] url h e k = cc
  parse-HasValues (c ∷ cs) url h e k =
      let parser = (http_parser_parse_url (c ∷ cs) (length (c ∷ cs) % 2 ^ 16) false).1 in
      ground (
        arith,
        h k,
        parse_query-HasValues (get_string parser (c ∷ cs) uf_query) url.query_parameters h k,
      )

-- No parameter of a URL that was parsed afresh has an empty value: what `GetQueryParameter`
-- returns, where it returns, has characters.
pub get_query_parameter-of_string :
    (lib : HttpParserLib) (str key : Bytes) {url : Url} {value : Bytes}
    → of_string lib str ≡ ok url
    → get_query_parameter key url ≡ ok value
    → value ≢ []
unfolding of_string get_query_parameter lookup
get_query_parameter-of_string lib str key {url} e g nil =
    ground (arith, parse-HasValues lib str empty (λ k n. cc) e key)
