-- ===== src/Main/Requesting.antt =====
-- A notification of the device, from the datagram to the request that waits to be written.
use tv_cast.Prelude.{
  refl, if◌then◌else◌, err, system_error, Bool, ℕ, ◌+◌, ◌%◌, ◌^◌, ◌≡◌, ap, ◌∙◌, true, false, List,
  [], ◌∷◌, ◌++◌, some, Bytes, ok, ◌>>=◌,
}
use tv_cast.Net.SessionHandler.{Session, State, get_new_session_accessor, accessor_of, add_session}
use tv_cast.Http.CParser.{HttpParserLib}
use tv_cast.Http.Packet.{serialize}
use tv_cast.Http.SessionObserver.{SessionObserver}
use tv_cast.App.Types.{DeviceNotification}
use tv_cast.App.Interfaces.{Boost, Endpoint}
use tv_cast.App.Notification.{parse_device_notification}
use tv_cast.App.Controller.{handle_udp_data}
use tv_cast.App.Controller.Noticing.{noticed, handle_udp_data-notices}
use tv_cast.App.Requests.{get_config_packet}
use tv_cast.App.Requests.Reaching.{send_get_config_request-write}
use tv_cast.Tcp.{open_socket, async_read_some, async_write, checked, connect_session}
use tv_cast.Udp
use tv_cast.Udp.{async_receive_from, handle_receive, complete_first, complete_operation}
use tv_cast.Com.{
  Communication, client_of, with_client, create_http_client_session, network, bridge_datagram,
  udp_server_bridge,
}
use tv_cast.Com.Bridges.{client_observer}
use tv_cast.Main.EventLoop.{at_udp_server, handle_event}

module _ (lib : HttpParserLib) (boost : Boost) where
  -- A session of the client that has just been made.
  abbrev pub made : SessionObserver lib → ℕ → Session (SessionObserver lib)
  made o id = record { accessor = record { handler = o; k_id = id }; state = State.run }

  -- The controller behind the event: a request waits to be written, and its answer to be read.
  abbrev pub requesting :
      SessionObserver lib
      → Bytes
      → DeviceNotification
      → List Udp.Operation
      → Communication lib boost
      → Communication lib boost
  requesting o buffer n rest c = record c {
    tcp_client = record c.tcp_client {
      session_pool = c.tcp_client.session_pool ++ (made o c.index ∷ []);
    };
    client_pending =
        (c.client_pending ++ (async_write c.index buffer ∷ [])) ++ (async_read_some c.index ∷ []);
    client_sockets = c.index ∷ c.client_sockets;
    index = (c.index + 1) % 2 ^ 32;
    app = noticed n c.app;
    udp_server = record c.udp_server { pending = rest ++ (async_receive_from ∷ []) };
  }

  -- Port 8001 of an address.
  abbrev pub device_endpoint : boost.Address → Endpoint boost
  device_endpoint address = record { address = address; port = 8001 }

  created :
      (connected : Endpoint boost → Bool) (address : boost.Address) (o : SessionObserver lib)
      (c : Communication lib boost)
      → connected (device_endpoint address) ≡ true
      → c.tcp_client.creator ≡ some (some o)
      → create_http_client_session lib boost connected address c
        ≡ ok (
          c.index,
          record c {
            tcp_client = record c.tcp_client {
              session_pool = c.tcp_client.session_pool ++ (made o c.index ∷ []);
            };
            client_sockets = c.index ∷ c.client_sockets;
            index = (c.index + 1) % 2 ^ 32;
          },
        )
  unfolding create_http_client_session connect_session checked get_new_session_accessor accessor_of
      add_session
  created connected address o c reached creates =
      ap
        (λ m.
          (checked (client_observer lib boost) (accessor_of (SessionObserver lib) m c.index)
              (client_of lib boost c)
            >>= λ (a, t).
                if connected (device_endpoint address)
                then ok (a.k_id, open_socket (client_observer lib boost) a.k_id t)
                else err system_error)
          >>= λ (id, t). ok (id, with_client lib boost c t))
        creates
      ∙ rw reached refl

  -- Where the receive that waits longest completes with a notification that is accepted, before
  -- any other was, in a controller that has its application; the device has an address, and a
  -- connection to port 8001 of it can be made; and the request for its configuration can be serialized: the handler
  -- returns. A session of the client is made with the next id, on which the request waits to be
  -- written and behind it a read; the notification is the application's; the next receive waits;
  -- and nothing else has changed.
  pub handle_event-requesting :
      (connected : Endpoint boost → Bool) (bytes : Bytes) (rest : List Udp.Operation)
      (tree : boost.Tree) (n : DeviceNotification) (address : boost.Address) (buffer : Bytes)
      (o : SessionObserver lib) (c : Communication lib boost)
      → c.udp_server.pending ≡ async_receive_from ∷ rest
      → c.udp_server.observer ≡ true
      → c.tcp_client.creator ≡ some (some o)
      → c.app.notification_received ≡ false
      → boost.read_json bytes ≡ some tree
      → parse_device_notification lib boost tree c.app.notification ≡ ok (true, n)
      → boost.from_string n.v2_url.host ≡ some address
      → connected (device_endpoint address) ≡ true
      → serialize lib (get_config_packet n) ≡ ok (some buffer)
      → handle_event lib boost (at_udp_server (some bytes) connected) c
        ≡ ok (requesting o buffer n rest c)
  unfolding handle_event complete_first complete_operation handle_receive bridge_datagram
  handle_event-requesting connected bytes rest tree n address buffer o c waits registered creates
        first read parsed host reached written =
      let net = network lib boost connected in
      let c1 = record c {
        tcp_client = record c.tcp_client {
          session_pool = c.tcp_client.session_pool ++ (made o c.index ∷ []);
        };
        client_sockets = c.index ∷ c.client_sockets;
        index = (c.index + 1) % 2 ^ 32;
      } in
      let session : net.create_http_client_session address c ≡ ok (some c.index, c1) =
        ap (λ r. r >>= λ (id, c'). ok (some id, c'))
          (created connected address o c reached creates) in
      let heard : handle_udp_data lib boost net bytes c.app c
          ≡ ok (
            noticed n c.app,
            record c1 {
              client_pending =
                  (c.client_pending ++ (async_write c.index buffer ∷ []))
                  ++ (async_read_some c.index ∷ []);
            },
          ) =
        handle_udp_data-notices lib boost net bytes tree n c.app c first read parsed
        ∙ ap (λ r. r >>= λ w'. ok (noticed n c.app, w'))
            (send_get_config_request-write lib boost net (noticed n c.app) c c1 address c.index
              buffer host session written) in
      let bridged : bridge_datagram lib boost connected c bytes
          ≡ ok (record (requesting o buffer n rest c) { udp_server = c.udp_server }) =
        ap (λ r. r >>= λ (app, c'). ok (record c' { app = app })) heard in
      let s = record c.udp_server { pending = rest } in
      ap
        (λ os.
          complete_first (udp_server_bridge lib boost connected) os (some bytes) c.udp_server c
          >>= λ (s, c'). ok (record c' { udp_server = s }))
        waits
      ∙ ap
          (λ b.
            handle_receive (udp_server_bridge lib boost connected) (some bytes) b s c >>= λ (s, c').
            ok (record c' { udp_server = s }))
          registered
      ∙ ap
          (λ r.
            (r >>= λ c'. ok (Udp.receive s, c')) >>= λ (s, c'). ok (record c' { udp_server = s }))
          bridged
