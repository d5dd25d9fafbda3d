-- ===== src/Com/Promises.antt =====
-- What the sessions' observers promise: the application names a session of the server only, the one
-- that a packet came from, until it is closed.
use tv_cast.Prelude.{
  ℕ, Bool, ◌<◌, ◌≡◌, refl, sym, ◌∙◌, List, [], some, if◌then◌else◌, Result, ok, err, ◌>>=◌, Behaves,
  eq_int, true, false, inl, inr,
}
use Prim.{⊥}
use tv_cast.Net.SessionHandler.{Session}
use tv_cast.Net.SessionHandler.Ids.{count_id}
use tv_cast.Http.CParser.{HttpParserLib}
use tv_cast.Http.Packet.{Packet, serialize, status_ok}
use tv_cast.Http.Packet.Throws.{serialize-Behaves}
use tv_cast.Http.SessionObserver.{
  SessionObserver, Call, handle_packet, handle_write_complete, handle_close, close_session,
}
use tv_cast.App.Types.{App}
use tv_cast.App.Interfaces.{Boost}
use tv_cast.App.Controller.{handle_loop_packet, handle_service_packet}
use tv_cast.App.Controller.Closing.{notify_loop_session_close-named}
use tv_cast.Tcp.{Action}
use tv_cast.Tcp.Contract.{Promise, Keeps}
use tv_cast.Com.Bridges.{
  loop_sessions, http_server_bridge, http_client_bridge, server_observer, client_observer,
}
use tv_cast.Com.Answers.{Answers, handle_loop_packet-Answers}
use tv_cast.Com.Registered.{registered, Called, registered-Keeps}

module _ (lib : HttpParserLib) (boost : Boost) where
  abbrev pub Names : App → ℕ → Type 0
  Names a id = a.loop_session ≡ some id

  abbrev pub Free : App → Type 0
  Free a = Unit {0}

  -- The server's sessions: the application names one of them at most, the loop's.
  abbrev pub server_promise : ℕ → Promise (SessionObserver lib) App
  server_promise least = registered lib boost (http_server_bridge lib boost) Free Names least

  answered-Called :
      (least id : ℕ) (a : App) (m : Result (App × List Action))
      → Answers lib boost id m
      → Called lib boost (http_server_bridge lib boost) Free Names least id a m
  answered-Called least id a (ok (a', actions)) (named, on) =
      (tt, (λ k name. inl (cc (sym name ∙ named))), on)
  answered-Called least id a (err e) expected = expected

  server_calls :
      (least id : ℕ) (c : Call) (a : App)
      → Called lib boost
          (http_server_bridge lib boost)
          Free
          Names
          least
          id
          a
          (http_server_bridge lib boost id c (a, []))
  unfolding http_server_bridge
  server_calls least id (handle_packet packet) a =
      answered-Called least id a (handle_loop_packet lib boost loop_sessions id packet a [])
        (handle_loop_packet-Answers lib boost id packet a)
  server_calls least id handle_write_complete a = (tt, (λ k name. inr name), tt)
  server_calls least id handle_close a =
      (tt, (λ k name. inr (notify_loop_session_close-named id k a name).1), tt)
  server_calls least id close_session a = (tt, (λ k name. inr name), (refl, tt))

  pub server_observer-Keeps : (least : ℕ) → Keeps (server_promise least) (server_observer lib boost)
  unfolding http_server_bridge
  server_observer-Keeps least =
      registered-Keeps lib boost (http_server_bridge lib boost) Free Names least
        (λ id c a fixed. server_calls least id c a)
        (λ id a fixed. (tt, (λ k name. notify_loop_session_close-named id k a name)))

  -- The client's sessions, beside a pool of the server's: the application names none of them, and the
  -- one that it names stays in that pool.
  abbrev pub InPool : List (Session (SessionObserver lib)) → App → Type 0
  InPool pool a = (id : ℕ) → Names a id → 0 < count_id id pool

  abbrev NoName : App → ℕ → Type 0
  NoName a id = ⊥

  abbrev pub client_promise :
      List (Session (SessionObserver lib)) → ℕ → Promise (SessionObserver lib) App
  client_promise pool least =
      registered lib boost (http_client_bridge lib boost) (InPool pool) NoName least

  module _ (pool : List (Session (SessionObserver lib))) (least : ℕ) where
    abbrev ClientCalled : ℕ → App → Result (App × List Action) → Type 0
    ClientCalled = Called lib boost (http_client_bridge lib boost) (InPool pool) NoName least

    ready-InPool :
        (a : App) (b : Bool)
        → InPool pool a
        → InPool pool (if b then record a { device_ready = true } else a)
    ready-InPool a true fixed = fixed
    ready-InPool a false fixed = fixed

    logged-Called :
        {B : Type 0} (id : ℕ) (a : App) (m : Result B) (f : B → App)
        → Behaves m
        → ((b : B) → InPool pool (f b))
        → ClientCalled id a ((m >>= λ b. ok (f b)) >>= λ a'. ok (a', []))
    logged-Called id a (ok b) f behaves fixed = (fixed b, (λ k name. inr name), tt)
    logged-Called id a (err e) f behaves fixed = behaves

    handle_service_packet-Called :
        (id : ℕ) (packet : Packet) (a : App)
        → InPool pool a
        → ClientCalled id a (handle_service_packet lib packet a >>= λ a'. ok (a', []))
    unfolding handle_service_packet
    handle_service_packet-Called id packet a fixed =
        logged-Called id a (serialize lib packet) _ (serialize-Behaves lib packet)
          (λ b. ready-InPool a (eq_int status_ok packet.status) fixed)

    client_calls :
        (id : ℕ) (c : Call) (a : App)
        → InPool pool a
        → ClientCalled id a (http_client_bridge lib boost id c (a, []))
    unfolding http_client_bridge
    client_calls id (handle_packet packet) a fixed = handle_service_packet-Called id packet a fixed
    client_calls id handle_write_complete a fixed = (fixed, (λ k name. inr name), tt)
    client_calls id handle_close a fixed = (fixed, (λ k name. inr name), tt)
    client_calls id close_session a fixed = (fixed, (λ k name. inr name), (refl, tt))

    pub client_observer-Keeps : Keeps (client_promise pool least) (client_observer lib boost)
    unfolding http_client_bridge
    client_observer-Keeps =
        registered-Keeps lib boost (http_client_bridge lib boost) (InPool pool) NoName least
          client_calls (λ id a fixed. (fixed, (λ k name. absurd name)))
