-- ===== src/App/Throws.antt =====
-- What the application's handlers throw, apart from what the network does.
use tv_cast.Prelude.{
  [], ◌∷◌, none, some, Bytes, bytes_eq, codes, at, lookup, ok, err, out_of_range, Result,
  ThrowsRange, bind-ThrowsRange, if-ThrowsRange, refl, Bool, ◌>>=◌, ℕ,
}
use tv_cast.Http.CParser.{HttpParserLib}
use tv_cast.Http.Url.{Url, parse, of_string, get_query_parameter}
use tv_cast.App.Types.{DeviceNotification, NotificationType}
use tv_cast.App.Interfaces.{Boost}
use tv_cast.App.DeviceInfo.{update_bool, update_uint32, update_string, read_device_info}
use tv_cast.App.Notification.{
  text_at, update_v1, parse_rest, parse_v2, parse_type, parse_device_notification, convert_to_type,
}

module _ (lib : HttpParserLib) where
  parse-ThrowsRange : (str : Bytes) (url : Url) → ThrowsRange (parse lib str url)
  unfolding parse
  parse-ThrowsRange [] url = refl
  parse-ThrowsRange (c ∷ cs) url = tt

  pub of_string-ThrowsRange : (str : Bytes) → ThrowsRange (of_string lib str)
  unfolding of_string
  of_string-ThrowsRange str = parse-ThrowsRange str _

get_query_parameter-ThrowsRange :
    (key : Bytes) (url : Url) → ThrowsRange (get_query_parameter key url)
unfolding get_query_parameter at
get_query_parameter-ThrowsRange key url =
    elim (lookup key url.query_parameters)
      as (λ r.
        ThrowsRange (elim r as (λ q. Result Bytes) [ none ↦ err out_of_range | some v ↦ ok v ])) [
          | none ↦ refl
          | some v ↦ tt
        ]

-- A value read from one parameter, and what follows it.
read-ThrowsRange :
    {A : Type 0} (key : Bytes) (url : Url) (f : Bytes → A)
    → ThrowsRange (get_query_parameter key url >>= λ s. ok (f s))
read-ThrowsRange key url f =
    bind-ThrowsRange (get_query_parameter key url) _ (get_query_parameter-ThrowsRange key url)
      (λ s. tt)

update_bool-ThrowsRange :
    (value : Bool) (key : Bytes) (url : Url) → ThrowsRange (update_bool value key url)
unfolding update_bool
update_bool-ThrowsRange value key url = read-ThrowsRange key url _

update_uint32-ThrowsRange :
    (value : ℕ) (key : Bytes) (url : Url) → ThrowsRange (update_uint32 value key url)
unfolding update_uint32
update_uint32-ThrowsRange value key url = read-ThrowsRange key url _

update_string-ThrowsRange :
    (value key : Bytes) (url : Url) → ThrowsRange (update_string value key url)
unfolding update_string
update_string-ThrowsRange value key url = read-ThrowsRange key url _

pub read_device_info-ThrowsRange : (url : Url) → ThrowsRange (read_device_info url)
unfolding read_device_info
read_device_info-ThrowsRange url = bind-ThrowsRange _ _ (update_bool-ThrowsRange _ _ url) (λ x1.
    bind-ThrowsRange _ _ (update_bool-ThrowsRange _ _ url) (λ x2.
      bind-ThrowsRange _ _ (update_bool-ThrowsRange _ _ url) (λ x3.
        bind-ThrowsRange _ _ (update_uint32-ThrowsRange _ _ url) (λ x4.
          bind-ThrowsRange _ _ (update_uint32-ThrowsRange _ _ url) (λ x5.
            bind-ThrowsRange _ _ (update_uint32-ThrowsRange _ _ url) (λ x6.
              bind-ThrowsRange _ _ (update_string-ThrowsRange _ _ url) (λ x7.
                bind-ThrowsRange _ _ (update_string-ThrowsRange _ _ url) (λ x8.
                  bind-ThrowsRange _ _ (update_string-ThrowsRange _ _ url) (λ x9.
                    bind-ThrowsRange _ _ (update_string-ThrowsRange _ _ url) (λ x10.
                      bind-ThrowsRange _ _ (update_string-ThrowsRange _ _ url) (λ x11.
                        bind-ThrowsRange _ _ (update_string-ThrowsRange _ _ url)
                          (λ x12. tt))))))))))))

module _ (lib : HttpParserLib) (boost : Boost) where
  update_v1-ThrowsRange :
      (v1 : Bytes) (n : DeviceNotification) → ThrowsRange (update_v1 lib boost v1 n)
  unfolding update_v1
  update_v1-ThrowsRange [] n = tt
  update_v1-ThrowsRange (c ∷ cs) n =
      bind-ThrowsRange (parse lib (c ∷ cs) n.v1_url) _ (parse-ThrowsRange lib (c ∷ cs) n.v1_url)
        (λ url. tt)

  parse_v2-ThrowsRange :
      (v2 : Bytes) (tree : boost.Tree) (n : DeviceNotification)
      → ThrowsRange (parse_v2 lib boost v2 tree n)
  unfolding parse_v2 parse_rest
  parse_v2-ThrowsRange [] tree n = tt
  parse_v2-ThrowsRange (c ∷ cs) tree n =
      bind-ThrowsRange (parse lib (c ∷ cs) n.v2_url) _ (parse-ThrowsRange lib (c ∷ cs) n.v2_url)
        (λ url.
          let v1 = text_at boost (codes "data.v1.uri") tree in
          let n' = record n { v2_url = url } in
          bind-ThrowsRange (update_v1 lib boost v1 n') _ (update_v1-ThrowsRange v1 n') (λ n''. tt))

  parse_type-ThrowsRange :
      (kind : NotificationType) (tree : boost.Tree) (n : DeviceNotification)
      → ThrowsRange (parse_type lib boost kind tree n)
  unfolding parse_type
  parse_type-ThrowsRange NotificationType.init tree n = tt
  parse_type-ThrowsRange NotificationType.discover tree n = tt
  parse_type-ThrowsRange NotificationType.alive tree n = parse_v2-ThrowsRange _ tree _

  pub parse_device_notification-ThrowsRange :
      (tree : boost.Tree) (n : DeviceNotification)
      → ThrowsRange (parse_device_notification lib boost tree n)
  unfolding parse_device_notification
  parse_device_notification-ThrowsRange tree n =
      let type_str = text_at boost (codes "type") tree in
      if-ThrowsRange (bytes_eq type_str []) _ _ tt
        (parse_type-ThrowsRange (convert_to_type type_str) tree n)
