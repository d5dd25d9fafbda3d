-- ===== src/Com.antt =====
-- com_ctrl.h and com_ctrl.cc: the communication controller, which owns the servers and the client,
-- and the bridge between the server of datagrams and the application.
pub mod Bridges
pub mod Answers
pub mod Registered
pub mod Promises
pub mod Sound
pub mod Serving
pub mod Received
pub mod Loop
pub mod Guarded
use tv_cast.Prelude.{
  ℕ, Bool, true, false, if◌then◌else◌, system_error, List, [], Option, some, Bytes, Result, ok, err,
  ◌>>=◌,
}
use tv_cast.Http.CParser.{HttpParserLib}
use tv_cast.Http.SessionObserver
use tv_cast.Http.SessionObserver.{SessionObserver}
use tv_cast.App.Types.{App}
use tv_cast.App.Interfaces.{Boost, Network, Endpoint}
use tv_cast.App.Controller.{handle_udp_data}
use tv_cast.Tcp
use tv_cast.Tcp.{Operation, Tcp, create_session, connect_session, read, write}
use tv_cast.Udp
use tv_cast.Net.SessionHandler
use tv_cast.Net.SessionHandler.{SessionHandler}
use tv_cast.Com.Bridges.{server_observer, client_observer}

abbrev pub service_port : ℕ
service_port = 8001

module _ (lib : HttpParserLib) (boost : Boost) where
  -- `CommunicationController`. The static `index` of `GetNewSessionAccessor` and the application
  -- are shared by the server and the client.
  pub record Communication : Type 0 where
    pub udp_server : Udp.Server
    pub tcp_client : SessionHandler (SessionObserver lib)
    pub tcp_server : SessionHandler (SessionObserver lib)
    pub client_pending : List Operation
    pub server_pending : List Operation
    pub client_sockets : List ℕ
    pub server_sockets : List ℕ
    pub index : ℕ
    pub app : App

  abbrev pub new : ℕ → App → Communication
  new index app = record {
    udp_server = Udp.new;
    tcp_client = SessionHandler.empty (SessionObserver lib);
    tcp_server = SessionHandler.empty (SessionObserver lib);
    client_pending = [];
    server_pending = [];
    client_sockets = [];
    server_sockets = [];
    index = index;
    app = app;
  }

  -- `RegisterAppController`
  unfoldable pub register_app_controller : Communication → Communication
  register_app_controller c = record c {
    udp_server = Udp.register_observer c.udp_server;
    tcp_client =
        SessionHandler.register_creator (SessionObserver lib) (some (SessionObserver.create lib))
          c.tcp_client;
    tcp_server =
        SessionHandler.register_creator (SessionObserver lib) (some (SessionObserver.create lib))
          c.tcp_server;
  }

  -- `tcp_server_` and `tcp_client_` with what they share, and the controller behind a step of theirs.
  abbrev pub server_of : Communication → Tcp (server_observer lib boost)
  server_of c = record {
    sessions = c.tcp_server;
    index = c.index;
    shared = c.app;
    pending = c.server_pending;
    sockets = c.server_sockets;
  }

  abbrev pub with_server : Communication → Tcp (server_observer lib boost) → Communication
  with_server c t = record c {
    tcp_server = t.sessions;
    index = t.index;
    app = t.shared;
    server_pending = t.pending;
    server_sockets = t.sockets;
  }

  abbrev pub client_of : Communication → Tcp (client_observer lib boost)
  client_of c = record {
    sessions = c.tcp_client;
    index = c.index;
    shared = c.app;
    pending = c.client_pending;
    sockets = c.client_sockets;
  }

  abbrev pub with_client : Communication → Tcp (client_observer lib boost) → Communication
  with_client c t = record c {
    tcp_client = t.sessions;
    index = t.index;
    app = t.shared;
    client_pending = t.pending;
    client_sockets = t.sockets;
  }

  -- `Start`; `joined` is whether the multicast group can be joined.
  unfoldable pub start : Bool → Communication → Result Communication
  start joined c = do
    t ← create_session (server_observer lib boost) (server_of c)
    let c' = with_server c t
    joins ← Udp.join_multicast_group joined c'.udp_server
    ok (record c' { udp_server = Udp.receive joins })

  -- `endpoint(address, SERVICE_PORT)`
  abbrev pub service_endpoint : boost.Address → Endpoint boost
  service_endpoint address = record { address = address; port = service_port }

  -- `CreateHttpClientSession`; `connected` are the endpoints that can be
  -- connected to.
  unfoldable pub create_http_client_session :
      (Endpoint boost → Bool) → boost.Address → Communication → Result (ℕ × Communication)
  create_http_client_session connected address c = do
    (id, t) ←
        connect_session (client_observer lib boost) (connected (service_endpoint address))
          (client_of c)
    ok (id, with_client c t)

  -- What the application asks of the network while it handles a datagram.
  abbrev pub network : (Endpoint boost → Bool) → Network Communication boost.Address
  network connected = record {
    create_http_client_session = λ address c. do
      (id, c') ← create_http_client_session connected address c
      ok (some id, c');
    write = λ id buffer c.
        ok (with_client c (write (client_observer lib boost) id buffer (client_of c)));
    read = λ id c. ok (with_client c (read (client_observer lib boost) id (client_of c)));
  }

  -- `HandleData` of `UdpServerBridge`
  unfoldable pub bridge_datagram :
      (Endpoint boost → Bool) → Communication → Bytes → Result Communication
  bridge_datagram connected c bytes = do
    (app, c') ← handle_udp_data lib boost (network connected) bytes c.app c
    ok (record c' { app = app })

  -- `UdpServerBridge`; `NotifyUdpDataSend` does nothing.
  abbrev pub udp_server_bridge : (Endpoint boost → Bool) → Udp.PacketObserver Communication
  udp_server_bridge connected = record {
    handle_data = bridge_datagram connected;
    handle_write_complete = λ c. ok c;
  }
