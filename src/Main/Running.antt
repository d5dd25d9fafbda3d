-- ===== src/Main/Running.antt =====
-- The whole program: what holds between two handlers of the event loop, and how the program ends.
use tv_cast.Prelude.{
  ◌+◌, ◌<◌, ◌^◌, ◌≡◌, refl, arith, Bool, true, false, List, [], ◌∷◌, Option, none, some, Bytes,
  Result, ok, err, ◌>>=◌, IsExpected,
}
use tv_cast.Http.CParser.{HttpParserLib}
use tv_cast.App.Interfaces.{Boost, Endpoint}
use tv_cast.Tcp.{Tcp, complete, pick}
use tv_cast.Tcp.Live.{Outcome}
use tv_cast.Tcp.Life.{Alone, complete-Outcome}
use tv_cast.Udp
use tv_cast.Udp.{
  Operation, async_receive_from, async_send, Server, PacketObserver, handle_receive, handle_send,
  complete_first, complete_operation,
}
use tv_cast.Com.{
  Communication, server_of, client_of, with_client, udp_server_bridge, bridge_datagram,
}
use tv_cast.Com.Bridges.{server_observer, client_observer}
use tv_cast.Com.Promises.{
  server_promise, client_promise, server_observer-Keeps, client_observer-Keeps,
}
use tv_cast.Com.Sound.{IsSound, Ends, counted_from, with_server-IsSound, with_client-IsSound}
use tv_cast.Com.Serving.{bridge_datagram-Ends}
use tv_cast.Main.EventLoop.{Event, at_server, at_client, at_udp_server, handle_event, run}

module _ (lib : HttpParserLib) (boost : Boost) where
  -- An operation that fails is the only one on its session then.
  abbrev pub AloneAt : Event boost → Communication lib boost → Type 0
  AloneAt (at_server n outcome) c =
      Alone (server_observer lib boost) (pick n c.server_pending) outcome
  AloneAt (at_client n outcome) c =
      Alone (client_observer lib boost) (pick n c.client_pending) outcome
  AloneAt (at_udp_server outcome connected) c = Unit {0}

  -- The ids do not run out, and each operation of a session that fails is the only one on it then.
  abbrev pub IsOrderly : List (Event boost) → Communication lib boost → Type 0
  IsOrderly [] c = Unit {0}
  IsOrderly (e ∷ events) c =
      (c.index + 1 < 2 ^ 32)
      × AloneAt e c
      × ((c' : Communication lib boost) → handle_event lib boost e c ≡ ok c' → IsOrderly events c')

  client_next :
      (c : Communication lib boost) (r : Result (Tcp (client_observer lib boost)))
      → Outcome
          (client_observer lib boost)
          (client_promise lib boost c.tcp_server.session_pool c.index)
          r
      → IsSound lib boost c
      → Ends lib boost (r >>= λ t. ok (with_client lib boost c t))
  client_next c (ok t) live sound = with_client-IsSound lib boost c t live sound
  client_next c (err e) expected sound = expected

  abbrev EndsUdp : Result (Server × Communication lib boost) → Type 0
  EndsUdp (ok (s, c)) = (s.observer ≡ true) × IsSound lib boost c
  EndsUdp (err e) = IsExpected e

  udp_next :
      (r : Result (Server × Communication lib boost))
      → EndsUdp r
      → Ends lib boost (r >>= λ (s, c'). ok (record c' { udp_server = s }))
  udp_next (ok (s, c)) (set, sound) = record {
    server = sound.server;
    client = sound.client;
    registered = set;
  }
  udp_next (err e) expected = expected

  received_next :
      (s : Server) (r : Result (Communication lib boost))
      → s.observer ≡ true
      → Ends lib boost r
      → EndsUdp (r >>= λ c'. ok (Udp.receive s, c'))
  received_next s (ok c) set sound = (set, sound)
  received_next s (err e) set expected = expected

  receive-EndsUdp :
      (connected : Endpoint boost → Bool) (outcome : Option Bytes) (b : Bool) (s : Server)
      (c : Communication lib boost)
      → b ≡ true
      → s.observer ≡ true
      → IsSound lib boost c
      → c.index + 1 < 2 ^ 32
      → EndsUdp (handle_receive (udp_server_bridge lib boost connected) outcome b s c)
  unfolding handle_receive
  receive-EndsUdp connected none b s c given set sound bound = (set, sound)
  receive-EndsUdp connected (some bytes) false s c given set sound bound = absurd cc
  receive-EndsUdp connected (some bytes) true s c given set sound bound =
      received_next s (bridge_datagram lib boost connected c bytes) set
        (bridge_datagram-Ends lib boost connected c bytes sound bound)

  send-EndsUdp :
      (connected : Endpoint boost → Bool) (outcome : Option Bytes) (b : Bool) (s : Server)
      (c : Communication lib boost)
      → b ≡ true
      → s.observer ≡ true
      → IsSound lib boost c
      → EndsUdp (handle_send (udp_server_bridge lib boost connected) outcome b s c)
  unfolding handle_send
  send-EndsUdp connected none b s c given set sound = (set, sound)
  send-EndsUdp connected (some bytes) false s c given set sound = absurd cc
  send-EndsUdp connected (some bytes) true s c given set sound = (set, sound)

  complete_first-EndsUdp :
      (connected : Endpoint boost → Bool) (pending : List Operation) (outcome : Option Bytes)
      (c : Communication lib boost)
      → IsSound lib boost c
      → c.index + 1 < 2 ^ 32
      → EndsUdp
          (complete_first (udp_server_bridge lib boost connected) pending outcome c.udp_server c)
  unfolding complete_first complete_operation
  complete_first-EndsUdp connected [] outcome c sound bound = (sound.registered, sound)
  complete_first-EndsUdp connected (async_receive_from ∷ os) outcome c sound bound =
      receive-EndsUdp connected outcome c.udp_server.observer (record c.udp_server { pending = os })
        c sound.registered sound.registered sound bound
  complete_first-EndsUdp connected (async_send buffer ∷ os) outcome c sound bound =
      send-EndsUdp connected outcome c.udp_server.observer (record c.udp_server { pending = os }) c
        sound.registered sound.registered sound

  handle_event-Ends :
      (e : Event boost) (c : Communication lib boost)
      → IsSound lib boost c
      → c.index + 1 < 2 ^ 32
      → AloneAt e c
      → Ends lib boost (handle_event lib boost e c)
  unfolding handle_event
  handle_event-Ends (at_server n outcome) c sound bound alone =
      let observer = server_observer lib boost in
      let promise = server_promise lib boost c.index in
      let live =
        counted_from observer (server_promise lib boost 0) c.index (server_of lib boost c)
          (omega arith) sound.server in
      with_server-IsSound lib boost c (complete observer n outcome (server_of lib boost c))
        (complete-Outcome observer promise n outcome (server_of lib boost c)
          (server_observer-Keeps lib boost c.index) live bound alone)
        sound
  handle_event-Ends (at_client n outcome) c sound bound alone =
      let observer = client_observer lib boost in
      let pool = c.tcp_server.session_pool in
      let promise = client_promise lib boost pool c.index in
      let live =
        counted_from observer (client_promise lib boost pool 0) c.index (client_of lib boost c)
          (omega arith) sound.client in
      client_next c (complete observer n outcome (client_of lib boost c))
        (complete-Outcome observer promise n outcome (client_of lib boost c)
          (client_observer-Keeps lib boost pool c.index) live bound alone)
        sound
  handle_event-Ends (at_udp_server outcome connected) c sound bound alone =
      udp_next
        (complete_first (udp_server_bridge lib boost connected) c.udp_server.pending outcome
          c.udp_server c)
        (complete_first-EndsUdp connected c.udp_server.pending outcome c sound bound)

  pub then-Ends :
      (r : Result (Communication lib boost))
      (f : Communication lib boost → Result (Communication lib boost))
      → Ends lib boost r
      → ((c : Communication lib boost) → r ≡ ok c → IsSound lib boost c → Ends lib boost (f c))
      → Ends lib boost (r >>= f)
  then-Ends (ok c) f sound h = h c refl sound
  then-Ends (err e) f expected h = expected

  pub run-Ends :
      (events : List (Event boost)) (c : Communication lib boost)
      → IsSound lib boost c
      → IsOrderly events c
      → Ends lib boost (run lib boost events c)
  unfolding run
  run-Ends [] c sound orderly = sound
  run-Ends (e ∷ events) c sound (bound, alone, later) =
      then-Ends (handle_event lib boost e c) (run lib boost events)
        (handle_event-Ends e c sound bound alone)
        (λ c' done sound'. run-Ends events c' sound' (later c' done))
