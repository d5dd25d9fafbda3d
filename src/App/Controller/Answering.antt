-- ===== src/App/Controller/Answering.antt =====
-- A packet that asks for the video list.
use tv_cast.Prelude.{
  ℕ, true, ◌≡◌, refl, sym, Option, some, Bytes, codes, bytes_eq, bytes_eq_iff, eq_int, eq_int_iff,
  ok,
}
use tv_cast.Http.CParser.{HttpParserLib}
use tv_cast.Http.Packet.{Packet, request, method_get, serialize}
use tv_cast.Http.Url
use tv_cast.Http.Url.{Url}
use tv_cast.App.Types.{DeviceInfo, App}
use tv_cast.App.Interfaces.{Boost, Sessions}
use tv_cast.App.DeviceInfo.{read_device_info}
use tv_cast.App.Requests.{response_video_list}
use tv_cast.App.Controller.{
  handle_loop_packet, route_request, handle_video_list_request, is_request,
}

module _ (lib : HttpParserLib) where
  -- A GET of /videoList.xml, with this device information as its parameters, that can be serialized for
  -- the log.
  pub record IsVideoRequest (packet : Packet) (info : DeviceInfo) : Type 0 where
    pub kind : packet.kind ≡ request
    pub method : packet.method ≡ method_get
    pub url : Url
    pub parsed : Url.of_string lib packet.url ≡ ok url
    pub path : url.path ≡ codes "/videoList.xml"
    pub has_info : read_device_info url ≡ ok info
    pub logged : Option Bytes
    pub serialized : serialize lib packet ≡ ok logged

  module _ (boost : Boost) {W : Type 0} (sessions : Sessions W) where
    pub handle_loop_packet-video :
        (session : ℕ) (packet : Packet) (info : DeviceInfo) (a : App) (w : W)
        → IsVideoRequest packet info
        → handle_loop_packet lib boost sessions session packet a w
          ≡ response_video_list lib boost sessions
              (record a { loop_session = some session; device_info = info })
              w
    unfolding handle_loop_packet route_request handle_video_list_request is_request
    handle_loop_packet-video session packet info a w asks =
        let same_path : bytes_eq (codes "/videoList.xml") asks.url.path ≡ true =
          (bytes_eq_iff (codes "/videoList.xml") asks.url.path).1 (sym asks.path) in
        let get : eq_int method_get packet.method ≡ true =
          (eq_int_iff method_get packet.method).1 (sym asks.method) in
        rw (asks.serialized, asks.kind, get, asks.parsed, same_path, asks.has_info) refl
