-- ===== src/App/Notification.antt =====
-- `DeviceNotification::ConvertToType` and `ParseDeviceNotification`.
pub mod Accepts
use tv_cast.Prelude.{
  ℕ, Bool, true, false, [], ◌∷◌, Option, none, some, if◌then◌else◌, ◌==◌, Bytes, codes, bytes_eq,
  Result, ok, ◌>>=◌,
}
use tv_cast.Http.CParser.{HttpParserLib}
use tv_cast.Http.Url
use tv_cast.Http.Url.{Url}
use tv_cast.App.Types.{NotificationType, DeviceNotification}
use tv_cast.App.Interfaces.{Boost}

unfoldable pub convert_to_type : Bytes → NotificationType
convert_to_type str =
    if bytes_eq (codes "discover") str
    then NotificationType.discover
    else if bytes_eq (codes "alive") str
    then NotificationType.alive
    else NotificationType.init

-- `tree.get<T>(path, default)`
abbrev pub or_default : {A : Type 0} → A → Option A → A
or_default d none = d
or_default d (some a) = a

module _ (boost : Boost) where
  -- `tree.get<std::string>(path, std::string())`
  abbrev pub text_at : Bytes → boost.Tree → Bytes
  text_at path tree = or_default [] (boost.get_string path tree)

module _ (lib : HttpParserLib) (boost : Boost) where
  open boost use {Tree, get_uint32}

  -- `if (!v1.empty()) Url::Parse(v1, notification_.v1_url)`
  unfoldable pub update_v1 : Bytes → DeviceNotification → Result DeviceNotification
  update_v1 [] n = ok n
  update_v1 (c ∷ cs) n = do url ← Url.parse lib (c ∷ cs) n.v1_url; ok (record n { v1_url = url })

  unfoldable pub update_ttl : ℕ → DeviceNotification → DeviceNotification
  update_ttl ttl n = if ttl == 0 then n else record n { ttl = ttl }

  unfoldable pub update_remote : Bytes → DeviceNotification → DeviceNotification
  update_remote [] n = n
  update_remote (c ∷ cs) n = record n { remote = c ∷ cs }

  unfoldable pub update_sid : Bytes → DeviceNotification → DeviceNotification
  update_sid [] n = n
  update_sid (c ∷ cs) n = record n { sid = c ∷ cs }

  -- What follows the V2 URL.
  unfoldable pub parse_rest : Tree → DeviceNotification → Result (Bool × DeviceNotification)
  parse_rest tree n = do
    n' ← update_v1 (text_at boost (codes "data.v1.uri") tree) n
    let with_ttl = update_ttl (or_default 0 (get_uint32 (codes "ttl") tree)) n'
    let with_remote = update_remote (text_at boost (codes "remote") tree) with_ttl
    ok (true, update_sid (text_at boost (codes "sid") tree) with_remote)

  -- What follows `notification_.type = type`.
  unfoldable pub parse_v2 : Bytes → Tree → DeviceNotification → Result (Bool × DeviceNotification)
  parse_v2 [] tree n = ok (false, n)
  parse_v2 (c ∷ cs) tree n = do
    url ← Url.parse lib (c ∷ cs) n.v2_url
    parse_rest tree (record n { v2_url = url })

  unfoldable pub parse_type :
      NotificationType → Tree → DeviceNotification → Result (Bool × DeviceNotification)
  parse_type NotificationType.init tree n = ok (false, n)
  parse_type NotificationType.discover tree n = ok (false, n)
  parse_type NotificationType.alive tree n =
      parse_v2 (text_at boost (codes "data.v2.uri") tree) tree
        (record n { kind = NotificationType.alive })

  -- `ParseDeviceNotification`: whether it succeeded, and `notification_`.
  unfoldable pub parse_device_notification :
      Tree → DeviceNotification → Result (Bool × DeviceNotification)
  parse_device_notification tree n =
      let type_str = text_at boost (codes "type") tree in
      if bytes_eq type_str [] then ok (false, n) else parse_type (convert_to_type type_str) tree n
