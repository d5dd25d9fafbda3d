-- ===== src/Main/Serving.antt =====
-- From the text of a message that a session reads to what the program does with it.
use tv_cast.Prelude.{
  true, ℕ, ◌<◌, ◌^◌, ◌≡◌, ◌≢◌, refl, ap, List, [], ◌∷◌, ◌++◌, Option, none, some, Bytes, Map, codes,
  length, pos, eq_int, ok, if◌then◌else◌, ◌>>=◌,
}
use tv_cast.Http.CParser.{HttpParserLib}
use tv_cast.Http.Packet.{status_ok, get_status_name}
use tv_cast.Http.Packet.Order.{insert_all}
use tv_cast.Http.Parser.Reading.{StartLine, request_line, status_line, text, IsReportedWhole}
use tv_cast.Http.Parser.Building.{packet_of, BodyFits}
use tv_cast.Http.SessionObserver
use tv_cast.Http.SessionObserver.{handle_packet}
use tv_cast.Http.SessionObserver.RoundTrip.{IsAnnounced, handle_data-text, serialize-text}
use tv_cast.Http.Url
use tv_cast.Http.Url.{Url}
use tv_cast.App.Types.{App, DeviceInfo}
use tv_cast.App.Interfaces.{Boost}
use tv_cast.App.Controller.{handle_service_packet}
use tv_cast.App.Controller.Video.{video_list_bytes}
use tv_cast.App.DeviceInfo.{read_device_info}
use tv_cast.Tcp.{Operation, async_read_some, find_session, pick, resume, perform}
use tv_cast.Tcp.Receiving.{complete-read}
use tv_cast.Com.{Communication, client_of, with_client}
use tv_cast.Com.Bridges.{
  server_observer, client_observer, http_client_bridge, bridge_data, make_calls,
}
use tv_cast.Main.EventLoop.{at_server, at_client, handle_event}
use tv_cast.Main.Answering.{answer, IsAnswered, handle_event-IsAnswered}

module _ (lib : HttpParserLib) (boost : Boost) where
  -- A GET of this target.
  abbrev pub get : Bytes → StartLine
  get target = request_line 1 target

  -- Where a read that waits on a session of the server, which has no message in progress, completes
  -- with the whole text of a GET, with whatever header fields, without a body and below 2 ^ 32
  -- bytes, on which the library's run makes one call for each string (http_parser.h also allows
  -- several), whose target is /videoList.xml with all twelve parameters, and where the answer
  -- has a body and is shorter than 2 ^ 32 bytes, the handler returns, and the answer waits to be
  -- written to that session, behind what waited before and in front of its next read.
  pub handle_event-served :
      (n id : ℕ) (target : Bytes) (fields : Map) (rest : List Operation) (url : Url)
      (info : DeviceInfo) (c : Communication lib boost)
      → pick n c.server_pending ≡ some (async_read_some id, rest)
      → find_session (server_observer lib boost) id c.tcp_server.session_pool
        ≡ some (SessionObserver.create lib)
      → IsReportedWhole lib (get target) fields none
      → length (text lib (get target) (insert_all fields []) none) < 2 ^ 32
      → Url.of_string lib target ≡ ok url
      → url.path ≡ codes "/videoList.xml"
      → read_device_info url ≡ ok info
      → answer lib boost id info c.app ≢ []
      → length (video_list_bytes (answer lib boost id info c.app)) < 2 ^ 32
      → (c' : Communication lib boost) × (handle_event lib boost
            (at_server n (some (text lib (get target) fields none)))
            c
          ≡ ok c')
        × IsAnswered lib boost id info rest c c'
  handle_event-served n id target fields rest url info c waits found valid bound parsed path has ne
        fits =
      let packet = packet_of (get target) (insert_all fields []) none in
      handle_event-IsAnswered lib boost n id (text lib (get target) fields none) rest packet info
        (SessionObserver.create lib) (SessionObserver.create lib) c waits found
        (handle_data-text lib (get target) fields none valid tt tt tt)
        (record {
          kind = refl;
          method = refl;
          url = url;
          parsed = parsed;
          path = path;
          has_info = has;
          logged = _;
          serialized = serialize-text lib (get target) (insert_all fields []) none tt tt bound;
        })
        ne fits

  -- The application behind a response with this status.
  abbrev pub noted : ℕ → App → App
  noted status a = if eq_int status_ok (pos status) then record a { device_ready = true } else a

  bridge_data-replied :
      (id status : ℕ) (name : Bytes) (fields : Map) (body : Option Bytes) (a : App)
      → IsReportedWhole lib (status_line status name) fields body
      → 0 < status
      → BodyFits body
      → IsAnnounced fields body
      → length
          (text lib (status_line status (get_status_name (pos status))) (insert_all fields []) body)
        < 2 ^ 32
      → bridge_data lib boost
          (http_client_bridge lib boost)
          id
          (SessionObserver.create lib)
          a
          (text lib (status_line status name) fields body)
        ≡ ok (SessionObserver.create lib, noted status a, [])
  unfolding bridge_data make_calls http_client_bridge handle_service_packet
  bridge_data-replied id status name fields body a valid proper fits announced bound =
      let line = status_line status (get_status_name (pos status)) in
      rw
        (
          handle_data-text lib (status_line status name) fields body valid proper fits announced,
          serialize-text lib line (insert_all fields []) body refl fits bound,
        )
        refl

  -- The controller behind a response to the client.
  abbrev pub IsNoted :
      ℕ → ℕ → List Operation → Communication lib boost → Communication lib boost → Type 0
  IsNoted id status rest c c' =
      (c'.client_pending ≡ rest ++ (async_read_some id ∷ []))
      × (c'.app ≡ noted status c.app)
      × (c'.index ≡ c.index)
      × (c'.server_pending ≡ c.server_pending)

  -- Where a read that waits on a session of the client, which has no message in progress, completes
  -- with the whole text of a response, on which the library's run makes one call for each string
  -- (http_parser.h also allows several), with a status that is not 0, whatever header fields, and no
  -- body or one of 1 to 65535 bytes that Content-Length announces, and that has less than 2 ^ 32 bytes when it is serialized for the log, the handler returns: the device is
  -- noted as ready exactly if the status is 200, or was before, and the next read waits on the
  -- session.
  pub handle_event-IsNoted :
      (n id status : ℕ) (name : Bytes) (fields : Map) (body : Option Bytes) (rest : List Operation)
      (c : Communication lib boost)
      → pick n c.client_pending ≡ some (async_read_some id, rest)
      → find_session (client_observer lib boost) id c.tcp_client.session_pool
        ≡ some (SessionObserver.create lib)
      → IsReportedWhole lib (status_line status name) fields body
      → 0 < status
      → BodyFits body
      → IsAnnounced fields body
      → length
          (text lib (status_line status (get_status_name (pos status))) (insert_all fields []) body)
        < 2 ^ 32
      → (c' : Communication lib boost) × (handle_event lib boost
            (at_client n (some (text lib (status_line status name) fields body)))
            c
          ≡ ok c')
        × IsNoted id status rest c c'
  unfolding handle_event resume perform
  handle_event-IsNoted n id status name fields body rest c waits found valid proper fits announced
        bound =
      let done =
        complete-read (client_observer lib boost) n id
          (text lib (status_line status name) fields body) rest
          (SessionObserver.create lib, noted status c.app, []) (client_of lib boost c) waits found
          (bridge_data-replied id status name fields body c.app valid proper fits announced
            bound) in
      (_, ap (λ r. r >>= λ x. ok (with_client lib boost c x)) done, (refl, refl, refl, refl))
