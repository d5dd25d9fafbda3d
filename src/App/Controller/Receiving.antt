-- ===== src/App/Controller/Receiving.antt =====
-- What `HandleUdpData` keeps of the network and of the loop.
use tv_cast.Prelude.{
  ThrowsRange-Behaves, ℕ, Bool, true, false, ◌≡◌, refl, Option, none, some, if◌then◌else◌, Bytes,
  Result, ok, err, ◌>>=◌, IsExpected, Behaves,
}
use tv_cast.Http.CParser.{HttpParserLib}
use tv_cast.App.Types.{App, DeviceNotification}
use tv_cast.App.Interfaces.{Boost, Network}
use tv_cast.App.Notification.{parse_device_notification}
use tv_cast.App.Throws.{parse_device_notification-ThrowsRange}
use tv_cast.App.Requests.{send_get_config_request}
use tv_cast.App.Requests.Sending.{Serves, Stays, send_get_config_request-Stays}
use tv_cast.App.Controller.{after_notification, handle_tree, handle_udp_data}

module _ {W : Type 0} (Good : W → Type 0) where
  -- The network stays good, and the loop has the session that it had.
  abbrev pub Heard : App → Result (App × W) → Type 0
  Heard a (ok (a', w)) = (a'.loop_session ≡ a.loop_session) × Good w
  Heard a (err e) = IsExpected e

module _ (lib : HttpParserLib) (boost : Boost) {W : Type 0} (net : Network W boost.Address)
    (Good : W → Type 0) (Open : ℕ → W → Type 0) (Ready : W → Type 0)
    (serves : Serves Good Open Ready net) where
  sent_next :
      (a a' : App) (m : Result W)
      → a'.loop_session ≡ a.loop_session
      → Stays Good Open m
      → Heard Good a (m >>= λ w. ok (a', w))
  sent_next a a' (ok w) same good = (same, good)
  sent_next a a' (err e) same expected = expected

  after_notification-Heard :
      (accepted : Bool) (a a' : App) (w : W)
      → a'.loop_session ≡ a.loop_session
      → Ready w
      → Heard Good a (after_notification lib boost net accepted a' w)
  unfolding after_notification
  after_notification-Heard false a a' w same good = (same, serves.ready w good)
  after_notification-Heard true a a' w same good =
      let noted = record a' { notification_received = true } in
      sent_next a noted (send_get_config_request lib boost net noted w) same
        (send_get_config_request-Stays lib boost net Good Open Ready serves noted w good)

  parsed_next :
      (a : App) (w : W) (m : Result (Bool × DeviceNotification))
      → Behaves m
      → Ready w
      → Heard Good a (
          m >>= λ (accepted, n).
          after_notification lib boost net accepted (record a { notification = n }) w)
  parsed_next a w (ok (accepted, n)) behaves good =
      after_notification-Heard accepted a (record a { notification = n }) w refl good
  parsed_next a w (err e) behaves good = behaves

  handle_tree-Heard :
      (r : Option boost.Tree) (a : App) (w : W)
      → Ready w
      → Heard Good a (handle_tree lib boost net r a w)
  unfolding handle_tree
  handle_tree-Heard none a w good = ((λ e. cc), (λ e. cc))
  handle_tree-Heard (some tree) a w good =
      parsed_next a w (parse_device_notification lib boost tree a.notification)
        (ThrowsRange-Behaves _
          (parse_device_notification-ThrowsRange lib boost tree a.notification))
        good

  unless-Heard :
      (received : Bool) (a : App) (w : W) (m : Result (App × W))
      → Ready w
      → Heard Good a m
      → Heard Good a (if received then ok (a, w) else m)
  unless-Heard true a w m good heard = (refl, serves.ready w good)
  unless-Heard false a w m good heard = heard

  pub handle_udp_data-Heard :
      (bytes : Bytes) (a : App) (w : W)
      → Ready w
      → Heard Good a (handle_udp_data lib boost net bytes a w)
  unfolding handle_udp_data
  handle_udp_data-Heard bytes a w good =
      unless-Heard a.notification_received a w _ good
        (handle_tree-Heard (boost.read_json bytes) a w good)
