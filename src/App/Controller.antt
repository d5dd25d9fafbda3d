-- ===== src/App/Controller.antt =====
-- The handlers of `ApplicationController`.
pub mod Video
pub mod Closing
pub mod Once
pub mod Noticing
pub mod Answering
pub mod Receiving
pub mod Udp
pub mod Guarding
use tv_cast.Prelude.{
  ℕ, Bool, true, false, ◌&&◌, ◌==◌, Option, none, some, if◌then◌else◌, Bytes, codes, bytes_eq,
  eq_int, Result, ok, err, json_parser_error, ◌>>=◌,
}
use tv_cast.Http.CParser.{HttpParserLib}
use tv_cast.Http.Packet.{
  Packet, PacketType, init, request, response, status_ok, method_get, serialize,
}
use tv_cast.Http.Url
use tv_cast.Http.Url.{Url}
use tv_cast.App.Types.{App, new_command, empty_command, play_command}
use tv_cast.App.Interfaces.{Boost, Sessions, Network}
use tv_cast.App.Notification.{parse_device_notification}
use tv_cast.App.DeviceInfo.{read_device_info}
use tv_cast.App.Requests.{send_get_config_request, response_video_list}

-- `PlayVideo` and `ResetCommand`, at time `now`.
unfoldable pub play_video : Bytes → ℕ → App → App
play_video url now a = record a { current_command = new_command (play_command url) now }

unfoldable pub reset_command : ℕ → App → App
reset_command now a = record a { current_command = new_command empty_command now }

-- `HandleServicePacket`; the packet is serialized for the log.
unfoldable pub handle_service_packet : HttpParserLib → Packet → App → Result App
handle_service_packet lib packet a = do
  logged ← serialize lib packet
  ok (if eq_int status_ok packet.status then record a { device_ready = true } else a)

same_session : ℕ → Option ℕ → Bool
same_session session none = false
same_session session (some s) = session == s

-- `NotifyLoopSessionClose`
unfoldable pub notify_loop_session_close : ℕ → App → App
unfolding same_session
notify_loop_session_close session a =
    if same_session session a.loop_session then record a { loop_session = none } else a

unfoldable pub is_request : PacketType → Bool
is_request init = false
is_request request = true
is_request response = false

module _ (lib : HttpParserLib) (boost : Boost) {W : Type 0} (sessions : Sessions W) where
  -- `HandleVideoListRequest`; `Control` does nothing.
  unfoldable pub handle_video_list_request : Url → App → W → Result (App × W)
  handle_video_list_request url a w = do
    info ← read_device_info url
    response_video_list lib boost sessions (record a { device_info = info }) w

  -- `HandleLoopPacket` behind the serializing of the packet for the log.
  unfoldable pub route_request : Packet → App → W → Result (App × W)
  unfolding is_request
  route_request packet a' w =
      if is_request packet.kind && eq_int method_get packet.method
      then (do
        url ← Url.of_string lib packet.url
        if bytes_eq (codes "/videoList.xml") url.path
            then handle_video_list_request url a' w
            else ok (a', w))
      else ok (a', w)

  -- `HandleLoopPacket`
  unfoldable pub handle_loop_packet : ℕ → Packet → App → W → Result (App × W)
  unfolding route_request
  handle_loop_packet session packet a w = do
    logged ← serialize lib packet
    route_request packet (record a { loop_session = some session }) w

module _ (lib : HttpParserLib) (boost : Boost) {W : Type 0} (net : Network W boost.Address) where
  open boost use {read_json}

  -- The branches of `HandleUdpData` behind `ParseDeviceNotification`.
  after_notification : Bool → App → W → Result (App × W)
  after_notification false a w = ok (a, w)
  after_notification true a w = do
    let a' = record a { notification_received = true }
    w' ← send_get_config_request lib boost net a' w
    ok (a', w')

  -- What follows `read_json`, whose exception is not caught.
  handle_tree : Option boost.Tree → App → W → Result (App × W)
  unfolding after_notification
  handle_tree none a w = err json_parser_error
  handle_tree (some tree) a w = do
    (accepted, n) ← parse_device_notification lib boost tree a.notification
    after_notification accepted (record a { notification = n }) w

  -- `HandleUdpData`
  unfoldable pub handle_udp_data : Bytes → App → W → Result (App × W)
  unfolding handle_tree
  handle_udp_data buffer a w =
      if a.notification_received then ok (a, w) else handle_tree (read_json buffer) a w
