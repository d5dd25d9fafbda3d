-- ===== src/Com/Serving.antt =====
-- What a datagram leaves of the communication controller.
use tv_cast.Prelude.{
  ◌∷◌, ℕ, ◌+◌, ◌<◌, ◌^◌, ◌≡◌, refl, sym, ◌∙◌, arith, Bool, true, false, Option, some, if◌then◌else◌,
  Bytes, Result, ok, err, ◌>>=◌, IsExpected, system_error,
}
use tv_cast.Http.CParser.{HttpParserLib}
use tv_cast.App.Types.{App}
use tv_cast.App.Interfaces.{Boost, Endpoint}
use tv_cast.App.Controller.{handle_udp_data}
use tv_cast.App.Controller.Receiving.{Heard, handle_udp_data-Heard}
use tv_cast.App.Requests.Sending.{Serves, Created}
use tv_cast.Net.SessionHandler.Ids.{count_id}
use tv_cast.Tcp.{
  open_socket, Operation, wait_for, Tcp, async_read_some, async_write, connect_session,
}
use tv_cast.Tcp.Live.{other_sockets, added-IsLive, added-here, checked-made, wait-IsLive}
use tv_cast.Com.{
  Communication, client_of, with_client, create_http_client_session, network, service_endpoint,
  bridge_datagram,
}
use tv_cast.Com.Bridges.{client_observer}
use tv_cast.Com.Promises.{client_promise}
use tv_cast.Com.Sound.{counted_from, IsSound, Ends, with_client-IsSound}
use tv_cast.Tcp.Uses.{session_of}

module _ (lib : HttpParserLib) (boost : Boost) (l : Option ℕ) where
  -- With this session in the loop, which no use of the network changes.
  abbrev Good : Communication lib boost → Type 0
  Good c = IsSound lib boost c × (c.app.loop_session ≡ l)

  -- A session of the client that is in its pool.
  abbrev Open : ℕ → Communication lib boost → Type 0
  Open id c = 0 < count_id id c.tcp_client.session_pool

  -- The ids do not run out yet.
  abbrev pub Ready : Communication lib boost → Type 0
  Ready c = Good c × (c.index + 1 < 2 ^ 32)

  abbrev Connected : Result (ℕ × Communication lib boost) → Type 0
  Connected (ok (id, c)) = Good c × Open id c
  Connected (err e) = IsExpected e

  bind-Connected :
      (connected : Bool) (c : Communication lib boost) (id : ℕ)
      (t : Tcp (client_observer lib boost))
      → Good (with_client lib boost c t)
      → 0 < count_id id t.sessions.session_pool
      → Connected (
          (if connected then ok (id, t) else err system_error) >>= λ (id, t).
          ok (id, with_client lib boost c t))
  bind-Connected true c id t sound here = (sound, here)
  bind-Connected false c id t sound here = ((λ e. cc), (λ e. cc))

  create_http_client_session-Connected :
      (connected : Endpoint boost → Bool) (address : boost.Address) (c : Communication lib boost)
      → Ready c
      → Connected (create_http_client_session lib boost connected address c)
  unfolding create_http_client_session connect_session
  create_http_client_session-Connected connected address c ((sound, same), bound) =
      let observer = client_observer lib boost in
      let promise = client_promise lib boost c.tcp_server.session_pool c.index in
      let t = client_of lib boost c in
      let (h, made, holds) = sound.client.creates in
      let live =
        counted_from observer (client_promise lib boost c.tcp_server.session_pool 0) c.index t
          (omega arith) sound.client in
      rw (checked-made observer promise t h made) (
        bind-Connected (connected (service_endpoint lib boost address)) c c.index
          (open_socket observer c.index _)
          (
            with_client-IsSound lib boost c _
                (other_sockets observer promise (c.index ∷ c.client_sockets) _
                  (added-IsLive observer promise t h made holds live bound))
                sound,
            same,
          )
          (added-here observer promise t h))

  bind-Created :
      (m : Result (ℕ × Communication lib boost))
      → Connected m
      → Created Good Open (m >>= λ (id, c). ok (some id, c))
  bind-Created (ok (id, c)) connected = connected
  bind-Created (err e) expected = expected

  waited-IsSound :
      (o : Operation) (c : Communication lib boost)
      → IsSound lib boost c
      → Open (session_of o) c
      → IsSound lib boost
          (with_client lib boost c (wait_for (client_observer lib boost) o (client_of lib boost c)))
  waited-IsSound o c sound here =
      let observer = client_observer lib boost in
      let promise = client_promise lib boost c.tcp_server.session_pool c.index in
      let t = client_of lib boost c in
      let live =
        counted_from observer (client_promise lib boost c.tcp_server.session_pool 0) c.index t
          (omega arith) sound.client in
      with_client-IsSound lib boost c _ (wait-IsLive observer promise o t here live) sound

  network-Serves :
      (connected : Endpoint boost → Bool) → Serves Good Open Ready (network lib boost connected)
  network-Serves connected = record {
    ready = λ c ready. ready.0;
    creates = λ address c ready.
        bind-Created (create_http_client_session lib boost connected address c)
          (create_http_client_session-Connected connected address c ready);
    writes = λ id buffer c (sound, same) here.
        ((waited-IsSound (async_write id buffer) c sound here, same), here);
    reads = λ id c (sound, same) here. (waited-IsSound (async_read_some id) c sound here, same);
  }

module _ (lib : HttpParserLib) (boost : Boost) where
  -- The application behind a handler, which has the session of the loop that it had.
  pub with_app-IsSound :
      (c : Communication lib boost) (a : App)
      → a.loop_session ≡ c.app.loop_session
      → IsSound lib boost c
      → IsSound lib boost (record c { app = a })
  with_app-IsSound c a same sound = record {
    server = record {
      owned = sound.server.owned;
      numbered = sound.server.numbered;
      held = sound.server.held;
      fixed = tt;
      named = λ id name. sound.server.named id (sym same ∙ name);
      counted = omega arith;
      creates = sound.server.creates;
    };
    client = record {
      owned = sound.client.owned;
      numbered = sound.client.numbered;
      held = sound.client.held;
      fixed = λ id name. sound.server.named id (sym same ∙ name);
      named = λ id name. absurd name;
      counted = omega arith;
      creates = sound.client.creates;
    };
    registered = sound.registered;
  }

  bind-Heard :
      (c : Communication lib boost) (m : Result (App × Communication lib boost))
      → Heard (Good lib boost c.app.loop_session) c.app m
      → Ends lib boost (m >>= λ (app, c'). ok (record c' { app = app }))
  bind-Heard c (ok (app, c')) (same, (sound, still)) =
      with_app-IsSound c' app (same ∙ sym still) sound
  bind-Heard c (err e) expected = expected

  -- `HandleData` of the bridge, while the ids do not run out.
  pub bridge_datagram-Ends :
      (connected : Endpoint boost → Bool) (c : Communication lib boost) (bytes : Bytes)
      → IsSound lib boost c
      → c.index + 1 < 2 ^ 32
      → Ends lib boost (bridge_datagram lib boost connected c bytes)
  unfolding bridge_datagram
  bridge_datagram-Ends connected c bytes sound bound =
      bind-Heard c (handle_udp_data lib boost (network lib boost connected) bytes c.app c) (
        handle_udp_data-Heard lib boost (network lib boost connected)
          (Good lib boost c.app.loop_session) (Open lib boost c.app.loop_session)
          (Ready lib boost c.app.loop_session)
          (network-Serves lib boost c.app.loop_session connected) bytes c.app c
          ((sound, refl), bound))
