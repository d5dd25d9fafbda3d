-- ===== src/Com/Bridges.antt =====
-- The bridges of com_ctrl.cc between the sessions of the server and of the client and the
-- application. What they write to a session during a call is a list of actions.
use tv_cast.Prelude.{List, [], ◌∷◌, ◌++◌, ℕ, Bytes, Result, ok, ◌>>=◌}
use tv_cast.Http.CParser.{HttpParserLib}
use tv_cast.Http.SessionObserver
use tv_cast.Http.SessionObserver.{
  SessionObserver, Call, handle_packet, handle_write_complete, handle_close, close_session,
}
use tv_cast.App.Types.{App}
use tv_cast.App.Interfaces.{Boost, Sessions}
use tv_cast.App.Controller.{handle_service_packet, handle_loop_packet, notify_loop_session_close}
use tv_cast.Tcp.{Action, write_buffer, close, ObserverInterface}

-- `session->Write(buffer)` on a session of the server.
abbrev pub loop_sessions : Sessions (List Action)
loop_sessions = record { write = λ id buffer w. ok (w ++ (write_buffer id buffer ∷ [])) }

module _ (lib : HttpParserLib) (boost : Boost) where
  abbrev pub State : Type 0
  State = App × List Action

  -- `HttpServerBridge`, for the calls that a session observer makes with session `id`, and the
  -- `session->Close()` of the observer itself.
  unfoldable pub http_server_bridge : ℕ → Call → State → Result State
  http_server_bridge id (handle_packet packet) (a, w) =
      handle_loop_packet lib boost loop_sessions id packet a w
  http_server_bridge id handle_write_complete s = ok s
  http_server_bridge id handle_close (a, w) = ok (notify_loop_session_close id a, w)
  http_server_bridge id close_session (a, w) = ok (a, w ++ (close id ∷ []))

  -- `HttpClientBridge`; two of the functions that it calls do nothing.
  unfoldable pub http_client_bridge : ℕ → Call → State → Result State
  http_client_bridge id (handle_packet packet) (a, w) = do
    a' ← handle_service_packet lib packet a
    ok (a', w)
  http_client_bridge id handle_write_complete s = ok s
  http_client_bridge id handle_close s = ok s
  http_client_bridge id close_session (a, w) = ok (a, w ++ (close id ∷ []))

  unfoldable pub make_calls :
      (ℕ → Call → State → Result State) → ℕ → List Call → State → Result State
  make_calls bridge id [] s = ok s
  make_calls bridge id (c ∷ calls) s = bridge id c s >>= make_calls bridge id calls

  -- `HandleData` of a session observer over a bridge: what it leaves, and what the session is to do.
  unfoldable pub bridge_data :
      (ℕ → Call → State → Result State)
      → ℕ
      → SessionObserver lib
      → App
      → Bytes
      → Result (SessionObserver lib × App × List Action)
  unfolding make_calls
  bridge_data bridge id o a bytes = do
    (status, o', calls) ← SessionObserver.handle_data lib bytes o
    (a', actions) ← make_calls bridge id calls (a, [])
    ok (o', a', actions)

  -- `HandleWriteComplete`
  unfoldable pub bridge_written :
      (ℕ → Call → State → Result State)
      → ℕ
      → SessionObserver lib
      → App
      → Result (SessionObserver lib × App × List Action)
  unfolding make_calls
  bridge_written bridge id o a = do
    (a', actions) ← make_calls bridge id (SessionObserver.write_complete lib o) (a, [])
    ok (o, a', actions)

  -- `HandleClose`
  unfoldable pub bridge_closed :
      (ℕ → Call → State → Result State) → ℕ → SessionObserver lib → App → Result App
  unfolding make_calls
  bridge_closed bridge id o a = do
    (a', actions) ← make_calls bridge id (SessionObserver.closed lib o).1 (a, [])
    ok a'

  -- The observers of the server's and of the client's sessions.
  abbrev pub observer_of :
      (ℕ → Call → State → Result State) → ObserverInterface (SessionObserver lib) App
  observer_of bridge = record {
    handle_data = bridge_data bridge;
    handle_write_complete = bridge_written bridge;
    handle_close = bridge_closed bridge;
  }

  abbrev pub server_observer : ObserverInterface (SessionObserver lib) App
  server_observer = observer_of http_server_bridge

  abbrev pub client_observer : ObserverInterface (SessionObserver lib) App
  client_observer = observer_of http_client_bridge
