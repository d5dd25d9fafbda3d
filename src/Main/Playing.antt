-- ===== src/Main/Playing.antt =====
-- From the command line to the television: the program starts, is connected to, is asked for the list
-- of videos, and answers with the video of its command line.
use tv_cast.Prelude.{
  ◌++◌, append_assoc, to_string, ℕ, ◌+◌, ◌%◌, ◌<◌, ◌^◌, ◌≡◌, ◌≢◌, refl, sym, ap, ◌∙◌, arith, true,
  [], ◌∷◌, none, some, Bytes, Map, codes, length, ok, ◌>>=◌,
}
use mathlib.Core.Path.{subst}
use tv_cast.Http.CParser.{HttpParserLib}
use tv_cast.Http.Packet.Order.{insert_all}
use tv_cast.Http.Parser.Reading.{status_line, line_end, fields_text, text, IsReportedWhole}
use tv_cast.Http.SessionObserver
use tv_cast.Http.Url
use tv_cast.Http.Url.{Url}
use tv_cast.App.Types.{App, DeviceInfo, new_app}
use tv_cast.App.Interfaces.{Boost}
use tv_cast.App.Command.{create_rss_packet, update_tree}
use tv_cast.App.Controller.{play_video}
use tv_cast.App.Controller.Video.{video_list_bytes}
use tv_cast.App.DeviceInfo.{read_device_info}
use tv_cast.Net.SessionHandler.{get_new_session_accessor, add_session}
use tv_cast.Tcp.{
  async_read_some, async_write, async_accept, find_session, pick, picked, complete,
  complete_operation, handle_accept, create_session, checked,
}
use tv_cast.Com.{Communication}
use tv_cast.Com.Bridges.{server_observer}
use tv_cast.Main.{prepare}
use tv_cast.Main.EventLoop.{at_server, handle_event, run}
use tv_cast.Main.Answering.{answer}
use tv_cast.Main.Started.{fresh, controller, started, prepare-started}
use tv_cast.Main.Ready.{play_tree}
use tv_cast.Main.Serving.{get, handle_event-served}

module _ (lib : HttpParserLib) (boost : Boost) where
  abbrev connected : Bytes → ℕ → ℕ → ℕ → Communication lib boost
  connected url index made now =
      let next = (index + 1) % 2 ^ 32 in
      controller lib boost url made now (fresh lib boost index ∷ fresh lib boost next ∷ [])
        (async_read_some index ∷ async_accept next ∷ []) (index ∷ []) ((next + 1) % 2 ^ 32)

  handle_event-connected :
      (url made_bytes : Bytes) (index made now : ℕ)
      → handle_event lib boost
          (at_server 0 (some made_bytes))
          (started lib boost url index made now)
        ≡ ok (connected url index made now)
  unfolding handle_event complete pick picked complete_operation handle_accept create_session
      checked get_new_session_accessor add_session
  handle_event-connected url made_bytes index made now = refl

  found :
      (url : Bytes) (index made now : ℕ)
      → find_session
          (server_observer lib boost)
          index
          (connected url index made now).tcp_server.session_pool
        ≡ some (SessionObserver.create lib)
  unfolding find_session
  found url index made now = ground arith

  answer-play :
      (url : Bytes) (index made now : ℕ) (info : DeviceInfo)
      → answer lib boost index info (play_video url now (new_app made))
        ≡ boost.write_xml (play_tree boost url now)
  unfolding create_rss_packet update_tree play_video
  answer-play url index made now info = refl

  -- The text of a response with status 200 and this body.
  abbrev pub answer_text : Bytes → Bytes
  answer_text body =
      text lib (status_line 200 (codes "OK"))
        ((codes "Access-Control-Allow-Origin", codes "*")
          ∷ (codes "Connection", codes "keep-alive")
          ∷ (codes "Content-Length", to_string (length body))
          ∷ [])
        (some body)

  video_list_bytes-text : (body : Bytes) → video_list_bytes body ≡ answer_text body
  unfolding fields_text to_string
  video_list_bytes-text body =
      cc (append_assoc (to_string (length body)) (line_end ++ line_end) body)

  -- What is left when the answer waits.
  abbrev pub IsPlaying : Bytes → ℕ → ℕ → DeviceInfo → Communication lib boost → Type 0
  IsPlaying url index now info c =
      (c.server_pending
        ≡ async_accept ((index + 1) % 2 ^ 32)
          ∷ async_write index (answer_text (boost.write_xml (play_tree boost url now)))
          ∷ async_read_some index
          ∷ [])
      × (c.app.loop_session ≡ some index)
      × (c.app.device_info ≡ info)
      × (c.app.current_command.send ≡ true)

  run-answered :
      (url bytes wire : Bytes) (index made now : ℕ) (c : Communication lib boost)
      → handle_event lib boost (at_server 0 (some wire)) (connected url index made now) ≡ ok c
      → (prepare lib boost url index made now true
          >>= run lib boost (at_server 0 (some bytes) ∷ at_server 0 (some wire) ∷ []))
        ≡ ok c
  unfolding run
  run-answered url bytes wire index made now c answered =
      rw
        (
          prepare-started lib boost url index made now,
          handle_event-connected url bytes index made now,
          answered,
        )
        refl

  -- If the multicast group can be joined: when the first connection is accepted and its session then reads, in one piece, the
  -- text of a GET of /videoList.xml with all twelve parameters, on which the library's run makes one
  -- call for each string (http_parser.h also allows several), with whatever header fields, without a body and below 2 ^ 32 bytes, the program
  -- answers on that session with the text of a response with status 200, three header fields and
  -- the document of a PLAY command for the URL of its command line, where Boost writes a document
  -- that is not empty and the answer is below 2 ^ 32 bytes. Behind the answer the next read waits
  -- on the session, in front of it the accept of the next one; the session is the loop's, the
  -- information on the device is that of the request, and the command is marked as sent.
  pub run-IsPlaying :
      (url bytes target : Bytes) (fields : Map) (index made now : ℕ) (target_url : Url)
      (info : DeviceInfo)
      → IsReportedWhole lib (get lib boost target) fields none
      → length (text lib (get lib boost target) (insert_all fields []) none) < 2 ^ 32
      → Url.of_string lib target ≡ ok target_url
      → target_url.path ≡ codes "/videoList.xml"
      → read_device_info target_url ≡ ok info
      → boost.write_xml (play_tree boost url now) ≢ []
      → length (answer_text (boost.write_xml (play_tree boost url now))) < 2 ^ 32
      → (c : Communication lib boost) × ((prepare lib boost url index made now true
            >>= run lib boost (
                at_server 0 (some bytes)
                ∷ at_server 0 (some (text lib (get lib boost target) fields none))
                ∷ []))
          ≡ ok c)
        × IsPlaying url index now info c
  unfolding pick create_rss_packet
  run-IsPlaying url bytes target fields index made now target_url info valid bound parsed path has
        ne fits =
      let plays = answer-play url index made now info in
      let written =
        ap video_list_bytes plays
        ∙ video_list_bytes-text (boost.write_xml (play_tree boost url now)) in
      let (c, answered, (pending, app, next, client)) =
        handle_event-served lib boost 0 index target fields
          (async_accept ((index + 1) % 2 ^ 32) ∷ []) target_url info (connected url index made now)
          refl (found url index made now) valid bound parsed path has (λ e. ne (sym plays ∙ e))
          (subst (λ (w : Bytes). length w < 2 ^ 32) (sym written) fits) in
      (
        c,
        run-answered url bytes (text lib (get lib boost target) fields none) index made now c
            answered,
        (
          pending
              ∙ ap
                  (λ w.
                    async_accept ((index + 1) % 2 ^ 32)
                    ∷ async_write index w
                    ∷ async_read_some index
                    ∷ [])
                  written,
          ap (λ (a : App). a.loop_session) app,
          ap (λ (a : App). a.device_info) app,
          ap (λ (a : App). a.current_command.send) app,
        ),
      )
