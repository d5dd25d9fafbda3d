-- ===== src/App/Requests.antt =====
-- The packets that app_ctrl.cc builds and sends.
pub mod Sending
pub mod Reaching
pub mod Guarding
use tv_cast.Prelude.{
  ℕ, not, ◌==◌, [], ◌++◌, Option, none, some, if◌then◌else◌, length, Bytes, codes, to_string,
  Result, ok, err, ◌>>=◌, system_error,
}
use tv_cast.Http.CParser.{HttpParserLib}
use tv_cast.Http.Packet
use tv_cast.Http.Packet.{
  Packet, request, response, status_init, status_ok, method_init, method_get, set_start, set_url,
  add_header_field, assign_body, serialize,
}
use tv_cast.App.Types.{DeviceNotification, App}
use tv_cast.App.Interfaces.{Boost, Sessions, Network}
use tv_cast.App.Command.{create_rss_packet}

-- The value of the `Host` header.
unfoldable pub host_field : DeviceNotification → Bytes
host_field n =
    n.v2_url.host ++ (if not (0 == n.v2_url.port) then codes ":" ++ to_string n.v2_url.port else [])

-- The packet of `SendGetConfigRequest`.
unfoldable pub get_config_packet : DeviceNotification → Packet
unfolding host_field
get_config_packet n = add_header_field (codes "Content-Type") (codes "application/json") (
    add_header_field (codes "Accept") (codes "*/*") (
      add_header_field (codes "Connection") (codes "keep-alive") (
        add_header_field (codes "Accept-Encoding") (codes "gzip, deflate") (
          add_header_field (codes "User-Agent") (codes "Dalvik/2.1.0 (Linux;)") (
            add_header_field (codes "Host") (host_field n) (
              set_url n.v2_url.path
                (set_start 1 1 status_init method_get request Packet.empty)))))))

-- The packet of `SendSwitchRequest`.
unfoldable pub switch_packet : DeviceNotification → Packet
unfolding host_field
switch_packet n = add_header_field (codes "Cache-Control") (codes "no-cache") (
    add_header_field (codes "Pragma") (codes "no-cache") (
      add_header_field (codes "Upgrade") (codes "websocket") (
        add_header_field (codes "Sec-WebSocket-Extensions") (codes "x-webkit-deflate-frame") (
          add_header_field (codes "Sec-WebSocket-Key") (codes "+hhAR9DmQr6o/rbZSQQkpQ==") (
            add_header_field (codes "Sec-WebSocket-Version") (codes "13") (
              add_header_field (codes "Accept") (codes "*/*") (
                add_header_field (codes "Connection") (codes "Upgrade") (
                  add_header_field (codes "Accept-Encoding") (codes "gzip, deflate") (
                    add_header_field (codes "User-Agent") (codes "Dalvik/2.1.0 (Linux;)") (
                      add_header_field (codes "Host") (host_field n) (
                        set_url (n.v2_url.path ++ codes "channels/de.2kit.CastBrowser")
                          (set_start 1 1 status_init method_get request Packet.empty))))))))))))

-- The packet of `ResponseVideoList`, for a body.
unfoldable pub video_list_packet : Bytes → Packet
video_list_packet body = assign_body (some body) (
    add_header_field (codes "Content-Length") (to_string (length body)) (
      add_header_field (codes "Access-Control-Allow-Origin") (codes "*") (
        add_header_field (codes "Connection") (codes "keep-alive")
          (set_start 1 1 status_ok method_init response Packet.empty))))

module _ (lib : HttpParserLib) (boost : Boost) {W : Type 0} (net : Network W boost.Address) where
  open boost use {from_string}
  open net use {create_http_client_session, write, read}

  -- `session->Write(buffer); session->Read();` where there is a buffer.
  write_and_read : ℕ → Option Bytes → W → Result W
  write_and_read session none w = ok w
  write_and_read session (some buffer) w = do w' ← write session buffer w; read session w'

  with_session : Option ℕ → Packet → W → Result W
  unfolding write_and_read
  with_session none packet w = ok w
  with_session (some session) packet w = do
    buffer ← serialize lib packet
    write_and_read session buffer w

  -- A session to `host`, and the packet on it.
  send_to : Bytes → Packet → W → Result W
  unfolding with_session
  send_to host packet w = elim (from_string host) [
    | none ↦ err system_error
    | some address ↦ do
      (session, w') ← create_http_client_session address w
      with_session session packet w'
  ]

  unfoldable pub send_get_config_request : App → W → Result W
  unfolding send_to
  send_get_config_request a w =
      send_to a.notification.v2_url.host (get_config_packet a.notification) w

  unfoldable pub send_switch_request : App → W → Result W
  unfolding send_to
  send_switch_request a w = send_to a.notification.v2_url.host (switch_packet a.notification) w

module _ (lib : HttpParserLib) (boost : Boost) {W : Type 0} (sessions : Sessions W) where
  open sessions use {write}

  unfoldable pub write_response : ℕ → Option Bytes → W → Result W
  write_response session none w = ok w
  write_response session (some buffer) w = write session buffer w

  unfoldable pub respond_to : Option ℕ → App → W → Result (App × W)
  unfolding write_response
  respond_to none a w = ok (a, w)
  respond_to (some session) a w = do
    let (body, a') = create_rss_packet boost a
    buffer ← serialize lib (video_list_packet body)
    w' ← write_response session buffer w
    ok (a', w')

  unfoldable pub response_video_list : App → W → Result (App × W)
  unfolding respond_to
  response_video_list a w = respond_to a.loop_session a w
