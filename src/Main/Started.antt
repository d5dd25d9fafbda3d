-- ===== src/Main/Started.antt =====
-- The controller when the event loop starts.
use tv_cast.Prelude.{ℕ, ◌+◌, ◌%◌, ◌^◌, ◌≡◌, refl, true, List, [], ◌∷◌, some, Bytes, ok}
use tv_cast.Http.CParser.{HttpParserLib}
use tv_cast.Http.SessionObserver
use tv_cast.App.Types.{new_app}
use tv_cast.App.Interfaces.{Boost}
use tv_cast.App.Controller.{play_video}
use tv_cast.Net.SessionHandler.{State, Session, get_new_session_accessor, add_session}
use tv_cast.Tcp.{Operation, async_accept, create_session, checked}
use tv_cast.Udp
use tv_cast.Com.{Communication, register_app_controller, start}
use tv_cast.Main.{prepare}

module _ (lib : HttpParserLib) (boost : Boost) where
  -- A session of a fresh observer with this id.
  abbrev pub fresh : ℕ → Session (SessionObserver.SessionObserver lib)
  fresh index = record {
    accessor = record { handler = SessionObserver.create lib; k_id = index };
    state = State.run;
  }

  -- The controller when its event loop starts, with these sessions of the server and these
  -- operations that wait and open sockets there.
  abbrev pub controller :
      Bytes
      → ℕ
      → ℕ
      → List (Session (SessionObserver.SessionObserver lib))
      → List Operation
      → List ℕ
      → ℕ
      → Communication lib boost
  controller url made now pool pending sockets index = record {
    udp_server = Udp.receive (record (Udp.register_observer Udp.new) { in_group = true });
    tcp_client = record { creator = some (some (SessionObserver.create lib)); session_pool = [] };
    tcp_server = record { creator = some (some (SessionObserver.create lib)); session_pool = pool };
    client_pending = [];
    server_pending = pending;
    client_sockets = [];
    server_sockets = sockets;
    index = index;
    app = play_video url now (new_app made);
  }

  abbrev pub started : Bytes → ℕ → ℕ → ℕ → Communication lib boost
  started url index made now =
      controller url made now (fresh index ∷ []) (async_accept index ∷ []) [] ((index + 1) % 2 ^ 32)

  pub prepare-started :
      (url : Bytes) (index made now : ℕ)
      → prepare lib boost url index made now true ≡ ok (started url index made now)
  unfolding Udp.join_multicast_group prepare start register_app_controller create_session checked
      get_new_session_accessor add_session
  prepare-started url index made now = refl
