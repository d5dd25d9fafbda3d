-- ===== src/Main/Discovering.antt =====
-- How the program finds its device: the notification, the request for the configuration, and the
-- answer to it.
use tv_cast.Prelude.{
  Bool, false, ℕ, ◌+◌, ◌%◌, ◌<◌, ◌^◌, ◌≡◌, refl, ap, ◌∙◌, arith, true, List, [], ◌∷◌, Option, none,
  some, Bytes, Map, codes, length, pos, insert, bytes_eq, bytes_lt, ok, ◌==◌, ◌>>=◌,
}
use tv_cast.Http.CParser.{HttpParserLib}
use tv_cast.Http.Packet.{serialize, get_status_name}
use tv_cast.Http.Packet.Order.{insert_all}
use tv_cast.Http.Parser.Reading.{request_line, status_line, text, IsReportedWhole}
use tv_cast.Http.Parser.Building.{packet_of, BodyFits}
use tv_cast.Http.SessionObserver
use tv_cast.Http.SessionObserver.{SessionObserver}
use tv_cast.Http.SessionObserver.RoundTrip.{IsAnnounced, serialize-text}
use tv_cast.App.Types.{DeviceNotification, new_app, empty_notification}
use tv_cast.App.Interfaces.{Boost, Endpoint}
use tv_cast.App.Notification.{parse_device_notification}
use tv_cast.App.Controller.{play_video}
use tv_cast.App.Controller.Noticing.{noticed}
use tv_cast.App.Requests.{get_config_packet, host_field}
use tv_cast.Tcp.{
  Operation, async_read_some, async_write, find_session, set_handler, pick, picked, complete,
  complete_operation, handle_write, resume, perform,
}
use tv_cast.Com.{Communication}
use tv_cast.Com.Bridges.{client_observer, bridge_written, make_calls, http_client_bridge}
use tv_cast.Main.{prepare}
use tv_cast.Main.EventLoop.{at_client, at_udp_server, handle_event, run}
use tv_cast.Main.Requesting.{device_endpoint, made, requesting, handle_event-requesting}
use tv_cast.Main.Serving.{noted, handle_event-IsNoted}
use tv_cast.Main.Started.{started, prepare-started}

-- The header fields of the request for the configuration, in the order of a map.
abbrev pub config_fields : Bytes → Map
config_fields host =
    (codes "Accept", codes "*/*")
    ∷ (codes "Accept-Encoding", codes "gzip, deflate")
    ∷ (codes "Connection", codes "keep-alive")
    ∷ (codes "Content-Type", codes "application/json")
    ∷ (codes "Host", host)
    ∷ (codes "User-Agent", codes "Dalvik/2.1.0 (Linux;)")
    ∷ []

get_config_packet-packet_of :
    (n : DeviceNotification)
    → get_config_packet n
      ≡ packet_of (request_line 1 n.v2_url.path) (config_fields (host_field n)) none
unfolding get_config_packet insert bytes_eq bytes_lt
get_config_packet-packet_of n = refl

module _ (lib : HttpParserLib) (boost : Boost) where
  -- The text of that request.
  abbrev pub config_text : DeviceNotification → Bytes
  config_text n = text lib (request_line 1 n.v2_url.path) (config_fields (host_field n)) none

  serialize-config :
      (n : DeviceNotification)
      → length (config_text n) < 2 ^ 32
      → serialize lib (get_config_packet n) ≡ ok (some (config_text n))
  serialize-config n bound =
      ap (serialize lib) (get_config_packet-packet_of n)
      ∙ serialize-text lib (request_line 1 n.v2_url.path) (config_fields (host_field n)) none tt tt
          bound

  -- A write of the client that completes on a session whose observer is registered.
  handle_event-sent :
      (id : ℕ) (buffer sent : Bytes) (o : SessionObserver lib) (rest : List Operation)
      (c : Communication lib boost)
      → c.client_pending ≡ async_write id buffer ∷ rest
      → c.tcp_client.session_pool ≡ made lib boost o id ∷ []
      → o.observer ≡ true
      → handle_event lib boost (at_client 0 (some sent)) c ≡ ok (record c { client_pending = rest })
  unfolding handle_event complete pick picked complete_operation handle_write find_session
      set_handler resume perform bridge_written SessionObserver.write_complete make_calls
      http_client_bridge
  handle_event-sent id buffer sent o rest c waits pool registered =
      let self : (id == id) ≡ true = ground arith in
      rw (waits, pool, self, registered) (rw self refl)

  module _ (connected : Endpoint boost → Bool) (url bytes sent : Bytes) (index created now : ℕ)
      (tree : boost.Tree) (n : DeviceNotification) where
    -- The id of the session to the device.
    abbrev next_id : ℕ
    next_id = (index + 1) % 2 ^ 32

    -- The controller when the request waits to be written, and when its answer waits to be read.
    abbrev asking : Communication lib boost
    asking =
        requesting lib boost (SessionObserver.create lib) (config_text n) n []
          (started lib boost url index created now)

    abbrev awaiting : Communication lib boost
    awaiting = record asking { client_pending = async_read_some next_id ∷ [] }

    -- The request on the session to the device, and what the answer to it leaves.
    abbrev pub IsAsking : Communication lib boost → Type 0
    IsAsking c =
        (c.client_pending ≡ async_write next_id (config_text n) ∷ async_read_some next_id ∷ [])
        × (c.app.notification ≡ n)
        × (c.app.device_ready ≡ false)

    abbrev pub IsFound : ℕ → Communication lib boost → Type 0
    IsFound status c =
        (c.client_pending ≡ async_read_some next_id ∷ [])
        × (c.app ≡ noted lib boost status (noticed n (play_video url now (new_app created))))

    run-asking :
        {address : boost.Address}
        → boost.read_json bytes ≡ some tree
        → parse_device_notification lib boost tree empty_notification ≡ ok (true, n)
        → boost.from_string n.v2_url.host ≡ some address
        → connected (device_endpoint lib boost address) ≡ true
        → length (config_text n) < 2 ^ 32
        → handle_event lib boost
            (at_udp_server (some bytes) connected)
            (started lib boost url index created now)
          ≡ ok asking
    unfolding play_video
    run-asking {address = address} read parsed host reached bound =
        handle_event-requesting lib boost connected bytes [] tree n address (config_text n)
          (SessionObserver.create lib) (started lib boost url index created now) refl refl refl refl
          read parsed host reached (serialize-config n bound)

    asking-awaiting : handle_event lib boost (at_client 0 (some sent)) asking ≡ ok awaiting
    unfolding SessionObserver.create
    asking-awaiting =
        handle_event-sent next_id (config_text n) sent (SessionObserver.create lib)
          (async_read_some next_id ∷ []) asking refl refl refl

    found :
        find_session (client_observer lib boost) next_id awaiting.tcp_client.session_pool
        ≡ some (SessionObserver.create lib)
    unfolding find_session
    found = let self : (next_id == next_id) ≡ true = ground arith in rw self refl

    run-asked :
        handle_event lib boost
            (at_udp_server (some bytes) connected)
            (started lib boost url index created now)
          ≡ ok asking
        → (prepare lib boost url index created now true
            >>= run lib boost (at_udp_server (some bytes) connected ∷ []))
          ≡ ok asking
    unfolding run
    run-asked asked = rw (prepare-started lib boost url index created now, asked) refl

    run-replied :
        (reply : Bytes) (c : Communication lib boost)
        → handle_event lib boost (at_client 0 (some reply)) awaiting ≡ ok c
        → run lib boost (at_client 0 (some sent) ∷ at_client 0 (some reply) ∷ []) asking ≡ ok c
    unfolding run
    run-replied reply c replied = rw (asking-awaiting, replied) refl

    -- If the multicast group can be joined: when the first datagram is a notification that is accepted, whose host is an
    -- address to whose port 8001 a connection can be made, and the text of the request for its configuration is
    -- below 2 ^ 32 bytes, then exactly that text, a GET of its path with six header fields, waits
    -- to be written on a session to the device, whose id is the one behind that of the server's
    -- session, with a read behind it; the notification is the application's, and the device is
    -- not noted as ready. When that write then completes and the read ends with the whole text of
    -- a response, on which the library's run makes one call for each string
    -- (http_parser.h also allows several), with a status that is not 0, whatever header
    -- fields, and no body or one of 1 to 65535 bytes that Content-Length announces, and below
    -- 2 ^ 32 bytes when it is serialized for the log, the device is noted as ready exactly if the
    -- status is 200, nothing else of the application has changed, and the next read waits.
    pub run-IsFound :
        (address : boost.Address) (status : ℕ) (name : Bytes) (fields : Map) (body : Option Bytes)
        → boost.read_json bytes ≡ some tree
        → parse_device_notification lib boost tree empty_notification ≡ ok (true, n)
        → boost.from_string n.v2_url.host ≡ some address
        → connected (device_endpoint lib boost address) ≡ true
        → length (config_text n) < 2 ^ 32
        → IsReportedWhole lib (status_line status name) fields body
        → 0 < status
        → BodyFits body
        → IsAnnounced fields body
        → length (
            text lib
              (status_line status (get_status_name (pos status)))
              (insert_all fields [])
              body)
          < 2 ^ 32
        → (c : Communication lib boost) × (c' : Communication lib boost) × ((prepare lib boost url
                index created now true
              >>= run lib boost (at_udp_server (some bytes) connected ∷ []))
            ≡ ok c)
          × IsAsking c
          × (run lib boost
                (at_client 0 (some sent)
                  ∷ at_client 0 (some (text lib (status_line status name) fields body))
                  ∷ [])
                c
              ≡ ok c')
          × IsFound status c'
    unfolding pick play_video
    run-IsFound address status name fields body read parsed host reached bound valid proper fits
          announced small =
        let (c, replied, (pending, app, next, server)) =
          handle_event-IsNoted lib boost 0 next_id status name fields body [] awaiting refl found
            valid proper fits announced small in
        (
          asking,
          c,
          run-asked (run-asking {address = address} read parsed host reached bound),
          (refl, refl, refl),
          run-replied (text lib (status_line status name) fields body) c replied,
          (pending, app),
        )
