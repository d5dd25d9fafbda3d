-- ===== src/Com/Guarded/Calls.antt =====
-- What the bridges do with a call is defined, where the packets that are serialized then fit in their
-- buffers.
use tv_cast.Prelude.{
  ℕ, List, [], Option, none, some, Bytes, codes, bytes_eq, eq_int, ◌&&◌, ok, ◌>>=◌, Defined,
  bind-Defined, if-Defined, ThrowsRange-Defined,
}
use tv_cast.Http.CParser.{HttpParserLib}
use tv_cast.Http.Packet.{Packet, serialize, method_get}
use tv_cast.Http.Packet.Fits.{Fits, serialize-Defined}
use tv_cast.Http.Parser.Safety.{CallsInOrder}
use tv_cast.Http.SessionObserver.{
  SessionObserver, Call, handle_packet, handle_write_complete, handle_close, close_session,
}
use tv_cast.Http.Url
use tv_cast.App.Types.{App}
use tv_cast.App.Interfaces.{Boost}
use tv_cast.App.Command.{create_rss_packet}
use tv_cast.App.DeviceInfo.{read_device_info}
use tv_cast.App.Throws.{of_string-ThrowsRange, read_device_info-ThrowsRange}
use tv_cast.App.Requests.{write_response, respond_to, response_video_list, video_list_packet}
use tv_cast.App.Controller.{
  handle_loop_packet, route_request, handle_video_list_request, is_request, handle_service_packet,
}
use tv_cast.Tcp.{Action}
use tv_cast.Tcp.Guarded.{Guard, Guards}
use tv_cast.Com.Bridges.{
  loop_sessions, http_server_bridge, http_client_bridge, server_observer, client_observer,
}
use tv_cast.Com.Guarded.{AdmitsCall, bridge_guard, observer-Guards}

module _ (lib : HttpParserLib) (boost : Boost) (order : CallsInOrder lib) where
  -- The packet is handled in buffers that hold it and, by the server, the answer to it.
  abbrev pub AnswerFits : Packet → App → Type 0
  AnswerFits p a = Fits lib p × Fits lib (video_list_packet (create_rss_packet boost a).0)

  abbrev pub LogFits : Packet → App → Type 0
  LogFits p a = Fits lib p

  abbrev Ran : App × List Action → Type 0
  Ran s = Unit {0}

  written-Defined :
      (id : ℕ) (a : App) (buffer : Option Bytes)
      → Defined Ran (write_response lib boost loop_sessions id buffer [] >>= λ w. ok (a, w))
  unfolding write_response
  written-Defined id a none = tt
  written-Defined id a (some buffer) = tt

  respond_to-Defined :
      (l : Option ℕ) (a : App)
      → Fits lib (video_list_packet (create_rss_packet boost a).0)
      → Defined Ran (respond_to lib boost loop_sessions l a [])
  unfolding respond_to create_rss_packet
  respond_to-Defined none a fits = tt
  respond_to-Defined (some id) a fits =
      bind-Defined Ran (serialize lib (video_list_packet (create_rss_packet boost a).0)) _
        (serialize-Defined lib _ fits) (λ buffer done b. written-Defined id _ buffer)

  response_video_list-Defined :
      (a : App)
      → Fits lib (video_list_packet (create_rss_packet boost a).0)
      → Defined Ran (response_video_list lib boost loop_sessions a [])
  unfolding response_video_list
  response_video_list-Defined a fits = respond_to-Defined a.loop_session a fits

  route_request-Defined :
      (packet : Packet) (a : App)
      → Fits lib (video_list_packet (create_rss_packet boost a).0)
      → Defined Ran (route_request lib boost loop_sessions packet a [])
  unfolding route_request handle_video_list_request create_rss_packet
  route_request-Defined packet a fits =
      if-Defined Ran (is_request packet.kind && eq_int method_get packet.method) _ _
        (bind-Defined Ran (Url.of_string lib packet.url) _
          (ThrowsRange-Defined (λ url. Unit {0}) _ (of_string-ThrowsRange lib packet.url)
            (λ url. tt))
          (λ url done u.
            if-Defined Ran (bytes_eq (codes "/videoList.xml") url.path) _ _
              (bind-Defined Ran (read_device_info url) _
                (ThrowsRange-Defined (λ info. Unit {0}) _ (read_device_info-ThrowsRange url)
                  (λ info. tt))
                (λ info done i. response_video_list-Defined (record a { device_info = info }) fits))
              tt))
        tt

  server_calls :
      (id : ℕ) (c : Call) (a : App)
      → AdmitsCall lib boost order (http_server_bridge lib boost) AnswerFits a c
      → Defined Ran (http_server_bridge lib boost id c (a, []))
  unfolding http_server_bridge handle_loop_packet create_rss_packet
  server_calls id (handle_packet p) a (fits, answer) =
      bind-Defined Ran (serialize lib p) _ (serialize-Defined lib p fits)
        (λ logged done b. route_request-Defined p (record a { loop_session = some id }) answer)
  server_calls id handle_write_complete a admits = tt
  server_calls id handle_close a admits = tt
  server_calls id close_session a admits = tt

  client_calls :
      (id : ℕ) (c : Call) (a : App)
      → AdmitsCall lib boost order (http_client_bridge lib boost) LogFits a c
      → Defined Ran (http_client_bridge lib boost id c (a, []))
  unfolding http_client_bridge handle_service_packet
  client_calls id (handle_packet p) a fits =
      bind-Defined Ran (handle_service_packet lib p a) _
        (bind-Defined (λ a'. Unit {0}) (serialize lib p) _ (serialize-Defined lib p fits)
          (λ b done c. tt))
        (λ a' done u. tt)
  client_calls id handle_write_complete a admits = tt
  client_calls id handle_close a admits = tt
  client_calls id close_session a admits = tt

  abbrev pub server_guard : Guard (SessionObserver lib) App
  server_guard = bridge_guard lib boost order (http_server_bridge lib boost) AnswerFits

  abbrev pub client_guard : Guard (SessionObserver lib) App
  client_guard = bridge_guard lib boost order (http_client_bridge lib boost) LogFits

  pub server-Guards : Guards server_guard (server_observer lib boost)
  server-Guards =
      observer-Guards lib boost order (http_server_bridge lib boost) AnswerFits server_calls

  pub client-Guards : Guards client_guard (client_observer lib boost)
  client-Guards =
      observer-Guards lib boost order (http_client_bridge lib boost) LogFits client_calls
