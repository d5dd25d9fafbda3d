-- ===== src/App/Notification/Accepts.antt =====
-- When `ParseDeviceNotification` accepts a notification.
use tv_cast.Prelude.{
  Bool, true, false, [], ◌∷◌, ◌≡◌, ◌≢◌, ◌⊎◌, refl, ◌↔◌, arith, if◌then◌else◌, Bytes, codes,
  bytes_eq, bytes_eq_iff, Result, ok, err, ◌>>=◌, inl, inr,
}
use mathlib.Core.Path.{subst}
use tv_cast.Http.CParser.{HttpParserLib}
use tv_cast.Http.Url
use tv_cast.App.Types.{NotificationType, DeviceNotification}
use tv_cast.App.Interfaces.{Boost}
use tv_cast.App.Notification.{
  convert_to_type, update_v1, text_at, parse_v2, parse_rest, parse_type, parse_device_notification,
}

-- A notification whose type is "alive" and that has a V2 URI.
abbrev pub IsAlive : (boost : Boost) → boost.Tree → Type 0
IsAlive boost tree =
    (text_at boost (codes "type") tree ≡ codes "alive")
    × (text_at boost (codes "data.v2.uri") tree ≢ [])

-- All of a notification but its type is as it was.
pub record SameData (n n' : DeviceNotification) : Type 0 where
  pub v1_url : n'.v1_url ≡ n.v1_url
  pub v2_url : n'.v2_url ≡ n.v2_url
  pub ttl : n'.ttl ≡ n.ttl
  pub remote : n'.remote ≡ n.remote
  pub sid : n'.sid ≡ n.sid

abbrev SameData-kind :
    (kind : NotificationType) (n : DeviceNotification) → SameData n (record n { kind = kind })
SameData-kind kind n = record {
  v1_url = refl;
  v2_url = refl;
  ttl = refl;
  remote = refl;
  sid = refl;
}

-- Either accepted, for reason `P`, or refused, with no such reason and the data unchanged.
abbrev Decides : Type 0 → DeviceNotification → Result (Bool × DeviceNotification) → Type 0
Decides P n (ok (accepted, n')) =
    ((accepted ≡ true) × P) ⊎ ((accepted ≡ false) × (¬ P) × SameData n n')
Decides P n (err e) = Unit {0}

convert_to_type-alive :
    (str : Bytes) → (convert_to_type str ≡ NotificationType.alive) ↔ (str ≡ codes "alive")
unfolding convert_to_type
convert_to_type-alive str =
    ground (arith, bytes_eq_iff (codes "discover") str, bytes_eq_iff (codes "alive") str)

-- A failing step decides nothing; otherwise what follows decides.
Decides-bind :
    {A : Type 0} (P : Type 0) (n : DeviceNotification) (r : Result A)
    (f : A → Result (Bool × DeviceNotification))
    → ((a : A) → Decides P n (f a))
    → Decides P n (r >>= f)
Decides-bind P n (ok a) f h = h a
Decides-bind P n (err e) f h = tt

module _ (lib : HttpParserLib) (boost : Boost) (tree : boost.Tree) where
  parse_rest-Decides :
      (P : Type 0) (n n' : DeviceNotification) → P → Decides P n (parse_rest lib boost tree n')
  unfolding parse_rest
  parse_rest-Decides P n n' p =
      Decides-bind P n (update_v1 lib boost (text_at boost (codes "data.v1.uri") tree) n') _
        (λ n''. inl (refl, p))

  parse_v2-Decides :
      (A : Type 0) (v2 : Bytes) (n n' : DeviceNotification)
      → A
      → SameData n n'
      → Decides (A × (v2 ≢ [])) n (parse_v2 lib boost v2 tree n')
  unfolding parse_v2
  parse_v2-Decides A [] n n' a same = inr (refl, (λ (b, p). p refl), same)
  parse_v2-Decides A (c ∷ cs) n n' a same =
      Decides-bind (A × ((c ∷ cs) ≢ [])) n (Url.parse lib (c ∷ cs) n'.v2_url) _ (λ url.
        parse_rest-Decides (A × ((c ∷ cs) ≢ [])) n (record n' { v2_url = url }) (a, λ e. cc))

  parse_type-Decides :
      (A : Type 0) (kind : NotificationType) (n : DeviceNotification)
      → ((kind ≡ NotificationType.alive) ↔ A)
      → Decides
          (A × (text_at boost (codes "data.v2.uri") tree ≢ []))
          n
          (parse_type lib boost kind tree n)
  unfolding parse_type
  parse_type-Decides A NotificationType.init n h =
      inr (refl, (λ (a, p). absurd (cc (h.1 a))), SameData-kind n.kind n)
  parse_type-Decides A NotificationType.discover n h =
      inr (refl, (λ (a, p). absurd (cc (h.1 a))), SameData-kind n.kind n)
  parse_type-Decides A NotificationType.alive n h =
      parse_v2-Decides A (text_at boost (codes "data.v2.uri") tree) n _ (h.0 refl)
        (SameData-kind NotificationType.alive n)

  by_name-Decides :
      (str : Bytes) (n : DeviceNotification) (b : Bool)
      → bytes_eq str [] ≡ b
      → Decides
          ((str ≡ codes "alive") × (text_at boost (codes "data.v2.uri") tree ≢ []))
          n
          (if b then ok (false, n) else parse_type lib boost (convert_to_type str) tree n)
  by_name-Decides str n true e =
      inr (refl, (λ (a, p). absurd (grind (arith, bytes_eq_iff str []))), SameData-kind n.kind n)
  by_name-Decides str n false e =
      parse_type-Decides (str ≡ codes "alive") (convert_to_type str) n (convert_to_type-alive str)

-- Where `ParseDeviceNotification` returns, it accepts exactly the notifications whose type is
-- "alive" and that have a V2 URI; where it refuses one, nothing but the type can have changed.
pub parse_device_notification-IsAlive :
    (lib : HttpParserLib) (boost : Boost) (tree : boost.Tree) (n : DeviceNotification)
    {accepted : Bool} {n' : DeviceNotification}
    → parse_device_notification lib boost tree n ≡ ok (accepted, n')
    → ((accepted ≡ true) × IsAlive boost tree)
      ⊎ ((accepted ≡ false) × (¬ IsAlive boost tree) × SameData n n')
unfolding parse_device_notification
parse_device_notification-IsAlive lib boost tree n e =
    subst (Decides (IsAlive boost tree) n) e
      (by_name-Decides lib boost tree (text_at boost (codes "type") tree) n _ refl)
