-- ===== src/Main/Guarded.antt =====
-- The whole program: no write and no read leaves its object, and so the program ends with 0.
use tv_cast.Prelude.{
  ℕ, ◌≡◌, refl, Bool, true, false, List, [], ◌∷◌, Option, none, some, Bytes, ok, Defined,
  bind-Defined,
}
use tv_cast.Http.CParser.{HttpParserLib}
use tv_cast.Http.Parser.Safety.{CallsInOrder}
use tv_cast.App.Types.{App}
use tv_cast.App.Interfaces.{Boost, Endpoint}
use tv_cast.App.Controller.{handle_udp_data}
use tv_cast.App.Requests.Guarding.{NetworkGuards}
use tv_cast.App.Controller.Guarding.{RequestFits, handle_udp_data-Defined}
use tv_cast.Tcp.{Tcp, pick, complete, connect_session}
use tv_cast.Tcp.Guarded.{AllHold, AdmitsRead, complete-Defined, connect_session-Defined}
use tv_cast.Udp.{
  Operation, async_receive_from, async_send, Server, handle_receive, handle_send, complete_first,
  complete_operation,
}
use tv_cast.Com.{
  service_endpoint, Communication, server_of, client_of, with_client, create_http_client_session,
  network, bridge_datagram, udp_server_bridge,
}
use tv_cast.Com.Bridges.{server_observer, client_observer}
use tv_cast.Com.Guarded.Calls.{server_guard, client_guard, server-Guards, client-Guards}
use tv_cast.Main.EventLoop.{Event, at_server, at_client, at_udp_server, handle_event, run}

module _ (lib : HttpParserLib) (boost : Boost) (order : CallsInOrder lib) where
  -- Every session's parser is in a safe state, and so is what the creators make.
  pub record IsGuarded (c : Communication lib boost) : Type 0 where
    pub server : AllHold (server_guard lib boost order) c.tcp_server
    pub client : AllHold (client_guard lib boost order) c.tcp_client

  -- The packet that this event completes, if it completes one, fits in the buffer that it is
  -- serialized into for the log, and so does the packet that the application sends then.
  abbrev pub AdmitsEvent : Event boost → Communication lib boost → Type 0
  AdmitsEvent (at_server n outcome) c =
      AdmitsRead (server_guard lib boost order) (server_observer lib boost)
        (pick n c.server_pending) outcome (server_of lib boost c)
  AdmitsEvent (at_client n outcome) c =
      AdmitsRead (client_guard lib boost order) (client_observer lib boost)
        (pick n c.client_pending) outcome (client_of lib boost c)
  AdmitsEvent (at_udp_server none connected) c = Unit {0}
  AdmitsEvent (at_udp_server (some bytes) connected) c = RequestFits lib boost c.app bytes

  abbrev pub AllAdmitted : List (Event boost) → Communication lib boost → Type 0
  AllAdmitted [] c = Unit {0}
  AllAdmitted (e ∷ events) c =
      AdmitsEvent e c
      × ((c' : Communication lib boost)
          → handle_event lib boost e c ≡ ok c'
          → AllAdmitted events c')

  with_app-IsGuarded :
      (c : Communication lib boost) (a : App) → IsGuarded c → IsGuarded (record c { app = a })
  with_app-IsGuarded c a guarded = record { server = guarded.server; client = guarded.client }

  with_client-IsGuarded :
      (c : Communication lib boost) (t : Tcp (client_observer lib boost))
      → IsGuarded c
      → AllHold (client_guard lib boost order) t.sessions
      → IsGuarded (with_client lib boost c t)
  with_client-IsGuarded c t guarded held = record { server = guarded.server; client = held }

  abbrev Made : ℕ × Communication lib boost → Type 0
  Made (id, c) = IsGuarded c

  create_http_client_session-Defined :
      (connected : Endpoint boost → Bool) (address : boost.Address) (c : Communication lib boost)
      → IsGuarded c
      → Defined Made (create_http_client_session lib boost connected address c)
  unfolding create_http_client_session
  create_http_client_session-Defined connected address c guarded =
      bind-Defined Made
        (connect_session (client_observer lib boost)
          (connected (service_endpoint lib boost address)) (client_of lib boost c))
        _
        (connect_session-Defined (client_guard lib boost order) (client_observer lib boost)
          (connected (service_endpoint lib boost address)) (client_of lib boost c) guarded.client)
        (λ (id, t) done held. with_client-IsGuarded c t guarded held)

  abbrev MadeSome : Option ℕ × Communication lib boost → Type 0
  MadeSome (id, c) = IsGuarded c

  network-Guards :
      (connected : Endpoint boost → Bool) → NetworkGuards IsGuarded (network lib boost connected)
  network-Guards connected = record {
    creates = λ address c guarded.
        bind-Defined MadeSome (create_http_client_session lib boost connected address c) _
          (create_http_client_session-Defined connected address c guarded)
          (λ (id, c') done made. made);
    writes = λ id buffer c guarded. with_client-IsGuarded c _ guarded guarded.client;
    reads = λ id c guarded. with_client-IsGuarded c _ guarded guarded.client;
  }

  bridge_datagram-Defined :
      (connected : Endpoint boost → Bool) (c : Communication lib boost) (bytes : Bytes)
      → RequestFits lib boost c.app bytes
      → IsGuarded c
      → Defined IsGuarded (bridge_datagram lib boost connected c bytes)
  unfolding bridge_datagram
  bridge_datagram-Defined connected c bytes fits guarded =
      bind-Defined IsGuarded (handle_udp_data lib boost (network lib boost connected) bytes c.app c)
        _
        (handle_udp_data-Defined lib boost IsGuarded (network lib boost connected)
          (network-Guards connected) bytes c.app c fits guarded)
        (λ (app, c') done guarded'. with_app-IsGuarded c' app guarded')

  abbrev GuardedUdp : Server × Communication lib boost → Type 0
  GuardedUdp (s, c) = IsGuarded c

  -- The operation of the server of datagrams, which has its observer or not.
  operation-Defined :
      (o : Operation) (outcome : Option Bytes) (connected : Endpoint boost → Bool)
      (registered : Bool) (s : Server) (c : Communication lib boost)
      → s.observer ≡ registered
      → AdmitsEvent (at_udp_server outcome connected) c
      → IsGuarded c
      → Defined GuardedUdp
          (complete_operation (udp_server_bridge lib boost connected) o outcome s c)
  unfolding complete_operation handle_receive handle_send
  operation-Defined async_receive_from none connected registered s c set fits guarded = guarded
  operation-Defined async_receive_from (some bytes) connected false s c set fits guarded =
      rw set (λ e. cc)
  operation-Defined async_receive_from (some bytes) connected true s c set fits guarded = rw set (
      bind-Defined GuardedUdp (bridge_datagram lib boost connected c bytes) _
        (bridge_datagram-Defined connected c bytes fits guarded) (λ c' done guarded'. guarded'))
  operation-Defined (async_send b) none connected registered s c set fits guarded = guarded
  operation-Defined (async_send b) (some bytes) connected false s c set fits guarded =
      rw set (λ e. cc)
  operation-Defined (async_send b) (some bytes) connected true s c set fits guarded = rw set guarded

  complete_first-Defined :
      (pending : List Operation) (outcome : Option Bytes) (connected : Endpoint boost → Bool)
      (c : Communication lib boost)
      → AdmitsEvent (at_udp_server outcome connected) c
      → IsGuarded c
      → Defined GuardedUdp
          (complete_first (udp_server_bridge lib boost connected) pending outcome c.udp_server c)
  unfolding complete_first
  complete_first-Defined [] outcome connected c fits guarded = guarded
  complete_first-Defined (o ∷ os) outcome connected c fits guarded =
      operation-Defined o outcome connected c.udp_server.observer
        (record c.udp_server { pending = os }) c refl fits guarded

  handle_event-Defined :
      (e : Event boost) (c : Communication lib boost)
      → AdmitsEvent e c
      → IsGuarded c
      → Defined IsGuarded (handle_event lib boost e c)
  unfolding handle_event
  handle_event-Defined (at_server n outcome) c admits guarded =
      bind-Defined IsGuarded
        (complete (server_observer lib boost) n outcome (server_of lib boost c)) _
        (complete-Defined (server_guard lib boost order) (server_observer lib boost)
          (server-Guards lib boost order) n outcome (server_of lib boost c) guarded.server admits)
        (λ t done held. record { server = held; client = guarded.client })
  handle_event-Defined (at_client n outcome) c admits guarded =
      bind-Defined IsGuarded
        (complete (client_observer lib boost) n outcome (client_of lib boost c)) _
        (complete-Defined (client_guard lib boost order) (client_observer lib boost)
          (client-Guards lib boost order) n outcome (client_of lib boost c) guarded.client admits)
        (λ t done held. with_client-IsGuarded c t guarded held)
  handle_event-Defined (at_udp_server outcome connected) c admits guarded =
      bind-Defined IsGuarded
        (complete_first (udp_server_bridge lib boost connected) c.udp_server.pending outcome
          c.udp_server c)
        _ (complete_first-Defined c.udp_server.pending outcome connected c admits guarded)
        (λ (s, c') done guarded'. record { server = guarded'.server; client = guarded'.client })

  pub run-Defined :
      (events : List (Event boost)) (c : Communication lib boost)
      → AllAdmitted events c
      → IsGuarded c
      → Defined IsGuarded (run lib boost events c)
  unfolding run
  run-Defined [] c admits guarded = guarded
  run-Defined (e ∷ events) c (admits, later) guarded =
      bind-Defined IsGuarded (handle_event lib boost e c) _
        (handle_event-Defined e c admits guarded)
        (λ c' done guarded'. run-Defined events c' (later c' done) guarded')
