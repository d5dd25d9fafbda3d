-- ===== src/App/DeviceInfo/Values.antt =====
-- What a VideoList request makes of its URL's parameters.
use tv_cast.Prelude.{
  ℕ, Bool, true, false, [], ◌∷◌, ◌≡◌, ◌||◌, refl, ap, arith, Option, none, some, Bytes, codes,
  lookup, at, Result, ok, err, ◌>>=◌, bytes_eq, bytes_eq_iff, out_of_range, List,
}
use tv_cast.Http.CParser.{HttpParserLib}
use tv_cast.Http.Url.{Url, get_query_parameter, of_string}
use tv_cast.Http.Url.Values.{get_query_parameter-of_string}
use tv_cast.App.Types.{DeviceInfo}
use tv_cast.App.DeviceInfo.{
  to_bool, bool_uint32, update_bool, update_uint32, update_string, read_device_info,
}

-- The keys that `HandleVideoListRequest` reads.
abbrev pub info_keys : List Bytes
info_keys =
    codes "stopped"
    ∷ codes "paused"
    ∷ codes "buffering"
    ∷ codes "position"
    ∷ codes "duration"
    ∷ codes "timestamp"
    ∷ codes "platform"
    ∷ codes "year"
    ∷ codes "version"
    ∷ codes "firmware"
    ∷ codes "modelid"
    ∷ codes "realmodel"
    ∷ []

abbrev is_none : Option Bytes → Bool
is_none none = true
is_none (some v) = false

-- Whether the URL lacks one of these parameters.
abbrev pub any_missing : Url → List Bytes → Bool
any_missing url [] = false
any_missing url (key ∷ keys) = is_none (lookup key url.query_parameters) || any_missing url keys

-- A URL that has these parameters, with these values.
abbrev pub HasParameters : Url → (Bytes → Bytes) → List Bytes → Type 0
HasParameters url values [] = Unit {0}
HasParameters url values (key ∷ keys) =
    (lookup key url.query_parameters ≡ some (values key)) × HasParameters url values keys

missing-go :
    {A B : Type 0} (found : Option Bytes) (url : Url) (m : Bool) (g : Bytes → A) (f : A → Result B)
    → ((a : A) → m ≡ true → f a ≡ err out_of_range)
    → (is_none found || m) ≡ true
    → ((elim found [ none ↦ err out_of_range | some v ↦ ok v ] >>= λ s. ok (g s)) >>= f)
      ≡ err out_of_range
missing-go none url m g f h e = refl
missing-go (some v) url m g f h e = h (g v) e

-- One reading, and what follows it.
missing-bind :
    {A B : Type 0} (key : Bytes) (url : Url) (m : Bool) (g : Bytes → A) (f : A → Result B)
    → ((a : A) → m ≡ true → f a ≡ err out_of_range)
    → (is_none (lookup key url.query_parameters) || m) ≡ true
    → ((get_query_parameter key url >>= λ s. ok (g s)) >>= f) ≡ err out_of_range
unfolding get_query_parameter at
missing-bind key url m g f h e = missing-go (lookup key url.query_parameters) url m g f h e

-- If the URL lacks one of the twelve parameters, the request ends in `std::out_of_range`.
pub read_device_info-missing :
    (url : Url) → any_missing url info_keys ≡ true → read_device_info url ≡ err out_of_range
unfolding read_device_info update_bool update_uint32 update_string
read_device_info-missing url e =
    missing-bind (codes "stopped") url _ _ _
      (λ s. missing-bind (codes "paused") url _ _ _ (λ p.
        missing-bind (codes "buffering") url _ _ _ (λ b.
          missing-bind (codes "position") url _ _ _ (λ q.
            missing-bind (codes "duration") url _ _ _ (λ d.
              missing-bind (codes "timestamp") url _ _ _ (λ t.
                missing-bind (codes "platform") url _ _ _ (λ f.
                  missing-bind (codes "year") url _ _ _ (λ y.
                    missing-bind (codes "version") url _ _ _ (λ v.
                      missing-bind (codes "firmware") url _ _ _ (λ w.
                        missing-bind (codes "modelid") url _ _ _ (λ m.
                          missing-bind (codes "realmodel") url false _ _
                            (λ r h. absurd (cc h)))))))))))))
      e

-- The twelve parameters, converted.
abbrev pub info_of : (Bytes → Bytes) → DeviceInfo
info_of values = record {
  stopped = to_bool (values (codes "stopped"));
  paused = to_bool (values (codes "paused"));
  buffering = to_bool (values (codes "buffering"));
  position = bool_uint32 (to_bool (values (codes "position")));
  duration = bool_uint32 (to_bool (values (codes "duration")));
  timestamp = bool_uint32 (to_bool (values (codes "timestamp")));
  platform = values (codes "platform");
  year = values (codes "year");
  version = values (codes "version");
  firmware = values (codes "firmware");
  model_id = values (codes "modelid");
  real_model = values (codes "realmodel");
}

-- A parameter of a parsed URL, converted.
module _ (lib : HttpParserLib) (str : Bytes) {url : Url} (parsed : of_string lib str ≡ ok url) where
  -- The parameter is found, and is not empty.
  found :
      (key v : Bytes)
      → lookup key url.query_parameters ≡ some v
      → (get_query_parameter key url ≡ ok v) × (bytes_eq v [] ≡ false)
  unfolding get_query_parameter at
  found key v e =
      let g : get_query_parameter key url ≡ ok v =
        ap (λ r. elim r [ none ↦ err out_of_range | some w ↦ ok w ]) e in
      (g, grind (arith, bytes_eq_iff v [], get_query_parameter-of_string lib str key parsed g))

  update_bool-value :
      (value : Bool) (key v : Bytes)
      → lookup key url.query_parameters ≡ some v
      → update_bool value key url ≡ ok (to_bool v)
  unfolding update_bool
  update_bool-value value key v e = let (g, n) = found key v e in rw (g, n) refl

  update_uint32-value :
      (value : ℕ) (key v : Bytes)
      → lookup key url.query_parameters ≡ some v
      → update_uint32 value key url ≡ ok (bool_uint32 (to_bool v))
  unfolding update_uint32
  update_uint32-value value key v e = let (g, n) = found key v e in rw (g, n) refl

  update_string-value :
      (value key v : Bytes)
      → lookup key url.query_parameters ≡ some v
      → update_string value key url ≡ ok v
  unfolding update_string
  update_string-value value key v e = let (g, n) = found key v e in rw (g, n) refl

  -- Where a URL that was parsed afresh has the twelve parameters, the request reads their values:
  -- a flag is whether the text is "true", and so is each of the three numbers, as 0 or 1.
  pub read_device_info-values :
      (values : Bytes → Bytes)
      → HasParameters url values info_keys
      → read_device_info url ≡ ok (info_of values)
  unfolding read_device_info
  read_device_info-values values
        (h1, (h2, (h3, (h4, (h5, (h6, (h7, (h8, (h9, (h10, (h11, (h12, u)))))))))))) =
      rw
        (
          update_bool-value false (codes "stopped") _ h1,
          update_bool-value false (codes "paused") _ h2,
          update_bool-value false (codes "buffering") _ h3,
          update_uint32-value 0 (codes "position") _ h4,
          update_uint32-value 0 (codes "duration") _ h5,
          update_uint32-value 0 (codes "timestamp") _ h6,
          update_string-value [] (codes "platform") _ h7,
          update_string-value [] (codes "year") _ h8,
          update_string-value [] (codes "version") _ h9,
          update_string-value [] (codes "firmware") _ h10,
          update_string-value [] (codes "modelid") _ h11,
          update_string-value [] (codes "realmodel") _ h12,
        )
        refl
