-- ===== src/Main/Answering.antt =====
-- A request for the video list, from the bytes that a session reads to the answer that waits to be
-- written.
use tv_cast.Prelude.{
  ℕ, ◌<◌, ◌^◌, ◌≡◌, ◌≢◌, refl, ap, ◌∙◌, List, [], ◌∷◌, ◌++◌, some, Bytes, length, ok, ◌>>=◌,
}
use tv_cast.Net.{HandleStatus}
use tv_cast.Http.CParser.{HttpParserLib}
use tv_cast.Http.Packet.{Packet}
use tv_cast.Http.SessionObserver
use tv_cast.Http.SessionObserver.{SessionObserver, Call, handle_packet}
use tv_cast.App.Types.{App, DeviceInfo}
use tv_cast.App.Interfaces.{Boost}
use tv_cast.App.Command.{create_rss_packet}
use tv_cast.App.Controller.Answering.{IsVideoRequest, handle_loop_packet-video}
use tv_cast.App.Controller.Video.{video_list_bytes, response_video_list-session}
use tv_cast.App.Controller.{handle_loop_packet}
use tv_cast.Tcp.{
  Operation, async_read_some, async_write, write_buffer, find_session, pick, resume, perform,
}
use tv_cast.Tcp.Receiving.{complete-read}
use tv_cast.Com.{Communication, server_of, with_server}
use tv_cast.Com.Bridges.{
  server_observer, http_server_bridge, bridge_data, make_calls, loop_sessions,
}
use tv_cast.Main.EventLoop.{at_server, handle_event}

module _ (lib : HttpParserLib) (boost : Boost) where
  -- The application behind the answer, and the bytes of the answer.
  abbrev pub asked : ℕ → DeviceInfo → App → App
  asked id info a = record a { loop_session = some id; device_info = info }

  abbrev pub answer : ℕ → DeviceInfo → App → Bytes
  answer id info a = (create_rss_packet boost (asked id info a)).0

  handle_loop_packet-answer :
      (id : ℕ) (packet : Packet) (info : DeviceInfo) (a : App)
      → IsVideoRequest lib packet info
      → answer id info a ≢ []
      → length (video_list_bytes (answer id info a)) < 2 ^ 32
      → handle_loop_packet lib boost loop_sessions id packet a []
        ≡ ok (
          (create_rss_packet boost (asked id info a)).1,
          write_buffer id (video_list_bytes (answer id info a)) ∷ [],
        )
  handle_loop_packet-answer id packet info a asks ne fits =
      handle_loop_packet-video lib boost loop_sessions id packet info a [] asks
      ∙ response_video_list-session lib boost loop_sessions id (asked id info a) [] refl ne fits

  bridge_data-answer :
      (id : ℕ) (packet : Packet) (info : DeviceInfo) (a : App) (o o' : SessionObserver lib)
      (bytes : Bytes)
      → SessionObserver.handle_data lib bytes o
        ≡ ok (HandleStatus.ok, o', handle_packet packet ∷ [])
      → IsVideoRequest lib packet info
      → answer id info a ≢ []
      → length (video_list_bytes (answer id info a)) < 2 ^ 32
      → bridge_data lib boost (http_server_bridge lib boost) id o a bytes
        ≡ ok (
          o',
          (create_rss_packet boost (asked id info a)).1,
          write_buffer id (video_list_bytes (answer id info a)) ∷ [],
        )
  unfolding bridge_data make_calls http_server_bridge
  bridge_data-answer id packet info a o o' bytes read_it asks ne fits =
      rw (read_it, handle_loop_packet-answer id packet info a asks ne fits) refl

  -- The controller behind the event.
  abbrev pub IsAnswered :
      ℕ → DeviceInfo → List Operation → Communication lib boost → Communication lib boost → Type 0
  IsAnswered id info rest c c' =
      (c'.server_pending
        ≡ (rest ++ (async_write id (video_list_bytes (answer id info c.app)) ∷ []))
          ++ (async_read_some id ∷ []))
      × (c'.app ≡ (create_rss_packet boost (asked id info c.app)).1)
      × (c'.index ≡ c.index)
      × (c'.client_pending ≡ c.client_pending)

  -- Where a read that waits on a session of the server completes with bytes that end a GET of
  -- /videoList.xml with all twelve parameters, which can be serialized for the log, and where the
  -- answer has a body and is shorter than 2 ^ 32 bytes: the handler returns; one write of the
  -- answer waits on that session behind what waited before, and behind it the next read; the
  -- session is the loop's, the information on the device is that of the request, the command is
  -- marked as sent, and the ids and what waits at the client are as before.
  pub handle_event-IsAnswered :
      (n id : ℕ) (bytes : Bytes) (rest : List Operation) (packet : Packet) (info : DeviceInfo)
      (o o' : SessionObserver lib) (c : Communication lib boost)
      → pick n c.server_pending ≡ some (async_read_some id, rest)
      → find_session (server_observer lib boost) id c.tcp_server.session_pool ≡ some o
      → SessionObserver.handle_data lib bytes o
        ≡ ok (HandleStatus.ok, o', handle_packet packet ∷ [])
      → IsVideoRequest lib packet info
      → answer id info c.app ≢ []
      → length (video_list_bytes (answer id info c.app)) < 2 ^ 32
      → (c' : Communication lib boost) × (handle_event lib boost (at_server n (some bytes)) c
          ≡ ok c')
        × IsAnswered id info rest c c'
  unfolding handle_event resume perform
  handle_event-IsAnswered n id bytes rest packet info o o' c waits found read_it asks ne fits =
      let done =
        complete-read (server_observer lib boost) n id bytes rest
          (
            o',
            (create_rss_packet boost (asked id info c.app)).1,
            write_buffer id (video_list_bytes (answer id info c.app)) ∷ [],
          )
          (server_of lib boost c) waits found
          (bridge_data-answer id packet info c.app o o' bytes read_it asks ne fits) in
      (_, ap (λ r. r >>= λ x. ok (with_server lib boost c x)) done, (refl, refl, refl, refl))
