-- ===== src/App/Controller/Noticing.antt =====
-- A datagram that is the notification which the application waits for.
use tv_cast.Prelude.{true, false, ◌≡◌, ap, ◌∙◌, some, if◌then◌else◌, Bytes, ok, ◌>>=◌}
use tv_cast.Http.CParser.{HttpParserLib}
use tv_cast.App.Types.{App, DeviceNotification}
use tv_cast.App.Interfaces.{Boost, Network}
use tv_cast.App.Notification.{parse_device_notification}
use tv_cast.App.Requests.{send_get_config_request}
use tv_cast.App.Controller.{handle_udp_data, handle_tree, after_notification}

-- The application that holds this notification.
abbrev pub noticed : DeviceNotification → App → App
noticed n a = record a { notification = n; notification_received = true }

module _ (lib : HttpParserLib) (boost : Boost) {W : Type 0} (net : Network W boost.Address) where
  pub handle_udp_data-notices :
      (bytes : Bytes) (tree : boost.Tree) (n : DeviceNotification) (a : App) (w : W)
      → a.notification_received ≡ false
      → boost.read_json bytes ≡ some tree
      → parse_device_notification lib boost tree a.notification ≡ ok (true, n)
      → handle_udp_data lib boost net bytes a w
        ≡ (send_get_config_request lib boost net (noticed n a) w >>= λ w'. ok (noticed n a, w'))
  unfolding handle_udp_data handle_tree after_notification
  handle_udp_data-notices bytes tree n a w waits read parsed =
      ap (λ b. if b then ok (a, w) else handle_tree lib boost net (boost.read_json bytes) a w) waits
      ∙ ap (λ r. handle_tree lib boost net r a w) read
      ∙ ap
          (λ r. r >>= λ (accepted, n).
            after_notification lib boost net accepted (record a { notification = n }) w)
          parsed

  -- Every later datagram is passed over.
  pub handle_udp_data-received :
      (bytes : Bytes) (a : App) (w : W)
      → a.notification_received ≡ true
      → handle_udp_data lib boost net bytes a w ≡ ok (a, w)
  unfolding handle_udp_data
  handle_udp_data-received bytes a w received =
      ap (λ b. if b then ok (a, w) else handle_tree lib boost net (boost.read_json bytes) a w)
        received
