-- ===== src/Tests/Program.antt =====
-- The whole program.
use mathlib.Core.Path.{subst}
use tv_cast.Prelude.{
  ◌≢◌, sym, pos, int_string, insert, bytes_lt, ℕ, ◌+◌, ◌≡◌, refl, arith, true, List, [], ◌∷◌, some,
  none, codes, Result, ok, err, undefined_behaviour, memcpy_at, to_string, bytes_eq, lookup,
}
use tv_cast.Http.SessionObserver
use tv_cast.Http.Parser.{start_packet, parse, run, settle, handle}
use tv_cast.Http.Url
use tv_cast.Http.Query.{parse_query, scan, step, store}
use tv_cast.Http.Packet.{
  Packet, request, status_init, get_status_name, serialize, assemble, copy_to, start_string,
  header_block,
}
use tv_cast.App.Controller.{
  handle_loop_packet, route_request, is_request, notify_loop_session_close, handle_udp_data,
  play_video,
}
use tv_cast.App.Notification.{parse_device_notification}
use tv_cast.Net.SessionHandler.{
  Session, State, get_new_session_accessor, add_session, close_session, erase_session,
}
use tv_cast.Tcp.{
  without_socket, async_accept, complete, complete_operation, create_session, find_session,
  set_handler, set_state,
}
use tv_cast.Tcp.Uses.{uses}
use tv_cast.Udp.{complete_first}
use tv_cast.Com.{Communication, start, register_app_controller, bridge_datagram}
use tv_cast.Com.Bridges.{bridge_data, bridge_closed, http_server_bridge}
use tv_cast.Main.{prepare}
use tv_cast.Main.EventLoop
use tv_cast.Main.EventLoop.{returned, running, Event, at_server, at_udp_server, handle_event, main}
use tv_cast.Main.Running.{IsOrderly}
use tv_cast.Main.Ends.{run-IsSound}
use tv_cast.Main.Guarded.{AllAdmitted}
use tv_cast.Main.Refused.{main-refused}
use tv_cast.Main.Returns.{main-undefined_behaviour}
use tv_cast.Com.Guarded.Calls.{AnswerFits, server_guard}
use tv_cast.App.Types.{App, new_app}
use tv_cast.App.Command.{create_rss_packet}
use tv_cast.App.Requests.{video_list_packet}
use tv_cast.Udp
use tv_cast.Com.Sound.{IsSound}
use tv_cast.Tests.Setup.{service, lib, boost, order}

abbrev OrderlyOf : List (Event boost) → Result (Communication lib boost) → Type 0
OrderlyOf events (ok c) = IsOrderly lib boost events c
OrderlyOf events (err e) = Unit {0}

-- A datagram that is no notification, a connection, a message on it, and its end.
abbrev ended : List (Event boost)
ended = at_server 1 none ∷ []

abbrev heard : List (Event boost)
heard = at_server 0 (some (codes "abc")) ∷ ended

abbrev accepted : List (Event boost)
accepted = at_server 0 (some []) ∷ heard

abbrev events : List (Event boost)
events = at_udp_server (some (codes "x")) service ∷ accepted

events-IsOrderly : OrderlyOf events (prepare lib boost (codes "u") 0 5 6 true)
unfolding Udp.join_multicast_group prepare start handle_event complete uses create_session
    complete_operation get_new_session_accessor register_app_controller complete_first
    bridge_datagram handle_udp_data play_video parse_device_notification bytes_eq lookup add_session
    bridge_data SessionObserver.handle_data parse run SessionObserver.create handle memcpy_at
    SessionObserver.dispatch settle http_server_bridge handle_loop_packet serialize assemble copy_to
    start_string to_string header_block Url.of_string is_request route_request parse_query scan step
    store Url.get_string Url.is_set Url.parse find_session set_handler
events-IsOrderly = (
  omega arith,
  tt,
  (λ c e. subst (OrderlyOf accepted) e (
    omega arith,
    (λ e. cc),
    (λ c e. subst (OrderlyOf heard) e (
      omega arith,
      (λ e. cc),
      (λ c e. subst (OrderlyOf ended) e (omega arith, (λ e. refl), (λ c e. tt))),
    )),
  )),
)

-- A session of the server that has just been made.
abbrev fresh : ℕ → Session (SessionObserver.SessionObserver lib)
fresh id = record {
  accessor = record { handler = SessionObserver.create lib; k_id = id };
  state = State.run;
}

-- The controller when one connection is waited for, with this id.
abbrev waiting : ℕ → Communication lib boost
waiting id = record {
  udp_server = Udp.receive (record (Udp.register_observer Udp.new) { in_group = true });
  tcp_client = record { creator = some (some (SessionObserver.create lib)); session_pool = [] };
  tcp_server = record {
    creator = some (some (SessionObserver.create lib));
    session_pool = fresh id ∷ [];
  };
  client_pending = [];
  client_sockets = [];
  server_sockets = [];
  server_pending = async_accept id ∷ [];
  index = id + 1;
  app = play_video (codes "u") 6 (new_app 5);
}

prepared : prepare lib boost (codes "u") 0 5 6 true ≡ ok (waiting 0)
unfolding Udp.join_multicast_group prepare start register_app_controller create_session
    get_new_session_accessor add_session
prepared = refl

gone : EventLoop.run lib boost events (waiting 0) ≡ ok (waiting 1)
unfolding EventLoop.run handle_event complete uses create_session complete_operation bridge_closed
    notify_loop_session_close SessionObserver.closed close_session erase_session set_state
    get_new_session_accessor register_app_controller complete_first bridge_datagram handle_udp_data
    play_video parse_device_notification bytes_eq lookup add_session bridge_data
    SessionObserver.handle_data parse run SessionObserver.create handle memcpy_at
    SessionObserver.dispatch settle http_server_bridge handle_loop_packet serialize assemble copy_to
    start_string to_string header_block Url.of_string is_request route_request parse_query scan step
    store Url.get_string Url.is_set Url.parse find_session set_handler without_socket
gone = refl

run-IsSound_example : IsSound lib boost (waiting 1)
run-IsSound_example =
    run-IsSound lib boost (codes "u") 0 5 6 true events {c = waiting 0} {c' = waiting 1}
      (omega arith) prepared (subst (OrderlyOf events) prepared events-IsOrderly) gone

-- The message on the connection, and the answer that it might get, are short.
abbrev posted : Packet
posted = record {
  http_major = 1;
  http_minor = 1;
  status = status_init;
  method = pos 1;
  kind = request;
  url = codes "/";
  header_fields = [];
  body = some (codes "abc");
}

posted-fits : (a : App) → AnswerFits lib boost order posted a
unfolding start_string to_string header_block create_rss_packet video_list_packet int_string
    get_status_name insert bytes_eq bytes_lt
posted-fits a = (omega arith, omega arith)

heard-fits :
    (a : App) (h : SessionObserver.SessionObserver lib)
    → some (SessionObserver.create lib) ≡ some h
    → (server_guard lib boost order).Admits h a (codes "abc")
unfolding SessionObserver.handle_data parse run SessionObserver.create handle memcpy_at
    SessionObserver.dispatch settle start_packet
heard-fits a h found status o' p handled =
    let same : SessionObserver.create lib ≡ h = cc found in
    let packet : posted ≡ p = cc (rw (sym same) at handled) in
    subst (λ q. AnswerFits lib boost order q a) packet (posted-fits a)

abbrev AdmittedOf : List (Event boost) → Result (Communication lib boost) → Type 0
AdmittedOf es (ok c) = AllAdmitted lib boost order es c
AdmittedOf es (err e) = Unit {0}

events-AllAdmitted : AdmittedOf events (prepare lib boost (codes "u") 0 5 6 true)
unfolding Udp.join_multicast_group prepare start handle_event complete uses create_session
    complete_operation get_new_session_accessor register_app_controller complete_first
    bridge_datagram handle_udp_data play_video parse_device_notification bytes_eq lookup add_session
    bridge_data SessionObserver.handle_data parse run SessionObserver.create handle memcpy_at
    SessionObserver.dispatch settle http_server_bridge handle_loop_packet serialize assemble copy_to
    start_string to_string header_block Url.of_string is_request route_request parse_query scan step
    store Url.get_string Url.is_set Url.parse find_session set_handler
events-AllAdmitted = (
  (λ tree n e parsed. let same : [] ≡ tree = cc e in cc (rw (sym same) at parsed)),
  (λ c e. subst (AdmittedOf accepted) e (
    tt,
    (λ c e.
        subst (AdmittedOf heard) e
          (heard-fits _, (λ c e. subst (AdmittedOf ended) e (tt, (λ c e. tt))))),
  )),
)

main-refused_example :
    (main lib boost (codes "u") 0 5 6 true (at_server 0 none ∷ events) ≡ ok (returned 0))
    × (main lib boost (codes "u") 0 5 6 true [] ≡ ok running)
main-refused_example = main-refused lib boost (codes "u") 0 5 6 events

main-undefined_behaviour_example :
    main lib boost (codes "u") 0 5 6 true events ≢ err undefined_behaviour
main-undefined_behaviour_example =
    main-undefined_behaviour lib boost order (codes "u") 0 5 6 true events
      (λ c e. subst (AdmittedOf events) e events-AllAdmitted)
