-- ===== src/App/Controller/Guarding.antt =====
-- A datagram is handled in a defined way, where the request that it makes the application send fits
-- in its buffer.
use tv_cast.Prelude.{
  ◌≡◌, refl, Bool, true, false, Option, none, some, Bytes, ok, Defined, bind-Defined, if-Defined,
  ThrowsRange-Defined,
}
use tv_cast.Http.CParser.{HttpParserLib}
use tv_cast.Http.Packet.Fits.{Fits}
use tv_cast.App.Types.{App, DeviceNotification}
use tv_cast.App.Interfaces.{Boost, Network}
use tv_cast.App.Notification.{parse_device_notification}
use tv_cast.App.Throws.{parse_device_notification-ThrowsRange}
use tv_cast.App.Requests.{send_get_config_request, get_config_packet}
use tv_cast.App.Requests.Guarding.{NetworkGuards, send_get_config_request-Defined}
use tv_cast.App.Controller.{after_notification, handle_tree, handle_udp_data}

module _ (lib : HttpParserLib) (boost : Boost) where
  -- The request that this datagram makes the application send, if it does, fits in its buffer.
  abbrev pub RequestFits : App → Bytes → Type 0
  RequestFits a bytes =
      (tree : boost.Tree) (n : DeviceNotification)
      → boost.read_json bytes ≡ some tree
      → parse_device_notification lib boost tree a.notification ≡ ok (true, n)
      → Fits lib (get_config_packet n)

module _ (lib : HttpParserLib) (boost : Boost) {W : Type 0} (Good : W → Type 0)
    (net : Network W boost.Address) (guards : NetworkGuards Good net) where
  abbrev GoodNext : App × W → Type 0
  GoodNext (a, w) = Good w

  after_notification-Defined :
      (accepted : Bool) (a : App) (w : W)
      → (accepted ≡ true → Fits lib (get_config_packet a.notification))
      → Good w
      → Defined GoodNext (after_notification lib boost net accepted a w)
  unfolding after_notification
  after_notification-Defined false a w fits good = good
  after_notification-Defined true a w fits good =
      bind-Defined GoodNext
        (send_get_config_request lib boost net (record a { notification_received = true }) w) _
        (send_get_config_request-Defined lib boost Good net guards
          (record a { notification_received = true }) w (fits refl) good)
        (λ w' done good'. good')

  handle_tree-Defined :
      (r : Option boost.Tree) (a : App) (w : W)
      → ((tree : boost.Tree) (n : DeviceNotification)
          → r ≡ some tree
          → parse_device_notification lib boost tree a.notification ≡ ok (true, n)
          → Fits lib (get_config_packet n))
      → Good w
      → Defined GoodNext (handle_tree lib boost net r a w)
  unfolding handle_tree
  handle_tree-Defined none a w fits good = λ e. cc
  handle_tree-Defined (some tree) a w fits good =
      bind-Defined GoodNext (parse_device_notification lib boost tree a.notification) _
        (ThrowsRange-Defined (λ n. Unit {0}) _
          (parse_device_notification-ThrowsRange lib boost tree a.notification) (λ n. tt))
        (λ (accepted, n) parsed u.
          after_notification-Defined accepted (record a { notification = n }) w
            (λ yes_. fits tree n refl (rw yes_ at parsed)) good)

  pub handle_udp_data-Defined :
      (bytes : Bytes) (a : App) (w : W)
      → RequestFits lib boost a bytes
      → Good w
      → Defined GoodNext (handle_udp_data lib boost net bytes a w)
  unfolding handle_udp_data
  handle_udp_data-Defined bytes a w fits good =
      if-Defined GoodNext a.notification_received _ _ good
        (handle_tree-Defined (boost.read_json bytes) a w fits good)
