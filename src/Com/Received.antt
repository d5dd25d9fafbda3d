-- ===== src/Com/Received.antt =====
-- What the bridges keep of the application once a notification was received.
use tv_cast.Prelude.{
  ℕ, Bool, true, false, ◌≡◌, refl, ◌∙◌, List, [], ◌∷◌, if◌then◌else◌, Result, ok, err, ◌>>=◌,
  eq_int,
}
use tv_cast.Net.{HandleStatus}
use tv_cast.Http.CParser.{HttpParserLib}
use tv_cast.Http.Packet.{Packet, serialize, status_ok}
use tv_cast.Http.SessionObserver
use tv_cast.Http.SessionObserver.{
  SessionObserver, Call, handle_packet, handle_write_complete, handle_close, close_session,
}
use tv_cast.App.Types.{App}
use tv_cast.App.Interfaces.{Boost}
use tv_cast.App.Controller.{handle_loop_packet, handle_service_packet}
use tv_cast.App.Controller.Once.{handle_loop_packet-received, notify_loop_session_close-received}
use tv_cast.Tcp.{Action}
use tv_cast.Tcp.Sharing.{LeavesOf, LeftBy, Preserves}
use tv_cast.Com.Bridges.{
  observer_of, loop_sessions, http_server_bridge, http_client_bridge, make_calls, bridge_data,
  bridge_written, bridge_closed, server_observer, client_observer,
}

abbrev pub HasReceived : App → Type 0
HasReceived a = a.notification_received ≡ true

abbrev StateOf : Result (App × List Action) → Type 0
StateOf (ok (a, w)) = HasReceived a
StateOf (err e) = Unit {0}

module _ (lib : HttpParserLib) (boost : Boost) where
  module _ (bridge : ℕ → Call → App × List Action → Result (App × List Action))
      (keeps : (id : ℕ) (c : Call) (a : App) (w : List Action)
        → HasReceived a
        → StateOf (bridge id c (a, w))) where
    next-StateOf :
        (id : ℕ) (calls : List Call) (m : Result (App × List Action))
        → ((a : App) (w : List Action)
            → HasReceived a
            → StateOf (make_calls lib boost bridge id calls (a, w)))
        → StateOf m
        → StateOf (m >>= make_calls lib boost bridge id calls)
    next-StateOf id calls (ok (a, w)) later kept = later a w kept
    next-StateOf id calls (err e) later kept = tt

    make_calls-StateOf :
        (id : ℕ) (calls : List Call) (a : App) (w : List Action)
        → HasReceived a
        → StateOf (make_calls lib boost bridge id calls (a, w))
    unfolding make_calls
    make_calls-StateOf id [] a w kept = kept
    make_calls-StateOf id (c ∷ calls) a w kept =
        next-StateOf id calls (bridge id c (a, w)) (make_calls-StateOf id calls)
          (keeps id c a w kept)

    answered-LeavesOf :
        (m : Result (App × List Action)) (o : SessionObserver lib)
        → StateOf m
        → LeavesOf
            (observer_of lib boost bridge)
            HasReceived
            (m >>= λ (a, actions). ok (o, a, actions))
    answered-LeavesOf (ok (a, actions)) o kept = kept
    answered-LeavesOf (err e) o kept = tt

    handled-LeavesOf :
        (id : ℕ) (a : App) (m : Result (HandleStatus × SessionObserver lib × List Call))
        → HasReceived a
        → LeavesOf (observer_of lib boost bridge) HasReceived (
            m >>= λ (status, o, calls).
            make_calls lib boost bridge id calls (a, []) >>= λ (a', actions). ok (o, a', actions))
    handled-LeavesOf id a (ok (status, o, calls)) kept =
        answered-LeavesOf (make_calls lib boost bridge id calls (a, [])) o
          (make_calls-StateOf id calls a [] kept)
    handled-LeavesOf id a (err e) kept = tt

    closed-LeftBy :
        (m : Result (App × List Action))
        → StateOf m
        → LeftBy (observer_of lib boost bridge) HasReceived (m >>= λ (a, actions). ok a)
    closed-LeftBy (ok (a, actions)) kept = kept
    closed-LeftBy (err e) kept = tt

    observer_of-Preserves : Preserves (observer_of lib boost bridge) HasReceived
    unfolding bridge_data bridge_written bridge_closed
    observer_of-Preserves = record {
      handled =
          λ id o a bytes kept. handled-LeavesOf id a (SessionObserver.handle_data lib bytes o) kept;
      written = λ id o a kept.
          answered-LeavesOf
            (make_calls lib boost bridge id (SessionObserver.write_complete lib o) (a, [])) o
            (make_calls-StateOf id (SessionObserver.write_complete lib o) a [] kept);
      closed = λ id o a kept.
          closed-LeftBy (make_calls lib boost bridge id (SessionObserver.closed lib o).1 (a, []))
            (make_calls-StateOf id (SessionObserver.closed lib o).1 a [] kept);
    }

  packet-StateOf :
      (id : ℕ) (packet : Packet) (a : App) (w : List Action) (m : Result (App × List Action))
      → handle_loop_packet lib boost loop_sessions id packet a w ≡ m
      → HasReceived a
      → StateOf m
  packet-StateOf id packet a w (ok (a', w')) e kept =
      handle_loop_packet-received lib boost loop_sessions id packet a w e ∙ kept
  packet-StateOf id packet a w (err e) same kept = tt

  server_calls :
      (id : ℕ) (c : Call) (a : App) (w : List Action)
      → HasReceived a
      → StateOf (http_server_bridge lib boost id c (a, w))
  unfolding http_server_bridge
  server_calls id (handle_packet packet) a w kept = packet-StateOf id packet a w _ refl kept
  server_calls id handle_write_complete a w kept = kept
  server_calls id handle_close a w kept = notify_loop_session_close-received id a ∙ kept
  server_calls id close_session a w kept = kept

  ready-HasReceived :
      (a : App) (b : Bool)
      → HasReceived a
      → HasReceived (if b then record a { device_ready = true } else a)
  ready-HasReceived a true kept = kept
  ready-HasReceived a false kept = kept

  service-StateOf :
      {B : Type 0} (m : Result B) (f : B → App) (w : List Action)
      → ((b : B) → HasReceived (f b))
      → StateOf ((m >>= λ b. ok (f b)) >>= λ a. ok (a, w))
  service-StateOf (ok b) f w kept = kept b
  service-StateOf (err e) f w kept = tt

  client_calls :
      (id : ℕ) (c : Call) (a : App) (w : List Action)
      → HasReceived a
      → StateOf (http_client_bridge lib boost id c (a, w))
  unfolding http_client_bridge handle_service_packet
  client_calls id (handle_packet packet) a w kept =
      service-StateOf (serialize lib packet) _ w
        (λ b. ready-HasReceived a (eq_int status_ok packet.status) kept)
  client_calls id handle_write_complete a w kept = kept
  client_calls id handle_close a w kept = kept
  client_calls id close_session a w kept = kept

  pub server_observer-Preserves : Preserves (server_observer lib boost) HasReceived
  server_observer-Preserves = observer_of-Preserves (http_server_bridge lib boost) server_calls

  pub client_observer-Preserves : Preserves (client_observer lib boost) HasReceived
  client_observer-Preserves = observer_of-Preserves (http_client_bridge lib boost) client_calls
