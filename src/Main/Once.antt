-- ===== src/Main/Once.antt =====
-- The program connects to the device once.
use tv_cast.Prelude.{
  ℕ, ◌≤◌, ◌≡◌, refl, sym, ap, ◌∙◌, arith, Bool, true, false, List, [], ◌∷◌, Option, none, some,
  Bytes, Result, ok, err, ◌>>=◌,
}
use mathlib.Core.Path.{subst}
use tv_cast.Net.SessionHandler.Ids.{count_id}
use tv_cast.Http.CParser.{HttpParserLib}
use tv_cast.App.Interfaces.{Boost, Endpoint}
use tv_cast.App.Controller.Noticing.{handle_udp_data-received}
use tv_cast.Tcp.{Tcp, complete, pick}
use tv_cast.Tcp.Accepting.{AtMost, accepts, picked-AtMost}
use tv_cast.Tcp.Sharing.{Shares, complete-Shares}
use tv_cast.Tcp.Shrinking.{Shrinks, complete-Shrinks}
use tv_cast.Udp
use tv_cast.Udp.{
  Operation, async_receive_from, async_send, Server, handle_receive, handle_send, complete_first,
  complete_operation,
}
use tv_cast.Com.{
  Communication, server_of, with_server, client_of, with_client, network, udp_server_bridge,
  bridge_datagram,
}
use tv_cast.Com.Bridges.{server_observer, client_observer}
use tv_cast.Com.Received.{HasReceived, server_observer-Preserves, client_observer-Preserves}
use tv_cast.Main.EventLoop.{Event, at_server, at_client, at_udp_server, handle_event, run}

module _ (lib : HttpParserLib) (boost : Boost) where
  -- A notification was received, no accept waits at the client, and every session of the client was there
  -- before.
  abbrev pub IsSettled : Communication lib boost → Communication lib boost → Type 0
  IsSettled c c' =
      HasReceived c'.app
      × (accepts c'.client_pending ≡ 0)
      × ((id : ℕ) → count_id id c'.tcp_client.session_pool ≤ count_id id c.tcp_client.session_pool)

  abbrev Settles : Communication lib boost → Result (Communication lib boost) → Type 0
  Settles c (ok c') = IsSettled c c'
  Settles c (err e) = Unit {0}

  server_next :
      (c : Communication lib boost) (r : Result (Tcp (server_observer lib boost)))
      → accepts c.client_pending ≡ 0
      → Shares (server_observer lib boost) HasReceived r
      → Settles c (r >>= λ t. ok (with_server lib boost c t))
  server_next c (ok t) without kept = (kept, without, (λ id. omega arith))
  server_next c (err e) without kept = tt

  client_next :
      (c : Communication lib boost) (r : Result (Tcp (client_observer lib boost)))
      → Shares (client_observer lib boost) HasReceived r
      → AtMost (client_observer lib boost) (accepts c.client_pending) r
      → Shrinks (client_observer lib boost) (client_of lib boost c) r
      → accepts c.client_pending ≡ 0
      → Settles c (r >>= λ t. ok (with_client lib boost c t))
  client_next c (ok t) kept few shrunk without = (kept, omega arith, shrunk)
  client_next c (err e) kept few shrunk without = tt

  abbrev Passes : Communication lib boost → Result (Server × Communication lib boost) → Type 0
  Passes c (ok (s, c')) = c' ≡ c
  Passes c (err e) = Unit {0}

  udp_next :
      (c : Communication lib boost) (r : Result (Server × Communication lib boost))
      → Passes c r
      → HasReceived c.app
      → accepts c.client_pending ≡ 0
      → Settles c (r >>= λ (s, c'). ok (record c' { udp_server = s }))
  udp_next c (ok (s, c')) same kept without = (
    ap (λ d. d.app.notification_received) same ∙ kept,
    ap (λ d. accepts d.client_pending) same ∙ without,
    (λ id. omega (arith, ap (λ d. count_id id d.tcp_client.session_pool) same)),
  )
  udp_next c (err e) same kept without = tt

  bridge_datagram-received :
      (connected : Endpoint boost → Bool) (c : Communication lib boost) (bytes : Bytes)
      → HasReceived c.app
      → bridge_datagram lib boost connected c bytes ≡ ok c
  unfolding bridge_datagram
  bridge_datagram-received connected c bytes kept =
      ap (λ r. r >>= λ (app, c'). ok (record c' { app = app }))
        (handle_udp_data-received lib boost (network lib boost connected) bytes c.app c kept)

  receive-Passes :
      (connected : Endpoint boost → Bool) (outcome : Option Bytes) (b : Bool) (s : Server)
      (c : Communication lib boost)
      → HasReceived c.app
      → Passes c (handle_receive (udp_server_bridge lib boost connected) outcome b s c)
  unfolding handle_receive
  receive-Passes connected none b s c kept = refl
  receive-Passes connected (some bytes) false s c kept = tt
  receive-Passes connected (some bytes) true s c kept =
      subst (λ r. Passes c (r >>= λ c'. ok (Udp.receive s, c')))
        (sym (bridge_datagram-received connected c bytes kept)) refl

  send-Passes :
      (connected : Endpoint boost → Bool) (outcome : Option Bytes) (b : Bool) (s : Server)
      (c : Communication lib boost)
      → Passes c (handle_send (udp_server_bridge lib boost connected) outcome b s c)
  unfolding handle_send
  send-Passes connected none b s c = refl
  send-Passes connected (some bytes) false s c = tt
  send-Passes connected (some bytes) true s c = refl

  complete_first-Passes :
      (connected : Endpoint boost → Bool) (pending : List Operation) (outcome : Option Bytes)
      (c : Communication lib boost)
      → HasReceived c.app
      → Passes c
          (complete_first (udp_server_bridge lib boost connected) pending outcome c.udp_server c)
  unfolding complete_first complete_operation
  complete_first-Passes connected [] outcome c kept = refl
  complete_first-Passes connected (async_receive_from ∷ os) outcome c kept =
      receive-Passes connected outcome c.udp_server.observer (record c.udp_server { pending = os })
        c kept
  complete_first-Passes connected (async_send buffer ∷ os) outcome c kept =
      send-Passes connected outcome c.udp_server.observer (record c.udp_server { pending = os }) c

  handle_event-Settles :
      (e : Event boost) (c : Communication lib boost)
      → HasReceived c.app
      → accepts c.client_pending ≡ 0
      → Settles c (handle_event lib boost e c)
  unfolding handle_event complete
  handle_event-Settles (at_server n outcome) c kept without =
      server_next c (complete (server_observer lib boost) n outcome (server_of lib boost c)) without
        (complete-Shares (server_observer lib boost) HasReceived n outcome (server_of lib boost c)
          (server_observer-Preserves lib boost) kept)
  handle_event-Settles (at_client n outcome) c kept without =
      let observer = client_observer lib boost in
      let t = client_of lib boost c in
      client_next c (complete observer n outcome t)
        (complete-Shares observer HasReceived n outcome t (client_observer-Preserves lib boost)
          kept)
        (picked-AtMost observer n (pick n c.client_pending) outcome t refl)
        (complete-Shrinks observer n outcome t without) without
  handle_event-Settles (at_udp_server outcome connected) c kept without =
      udp_next c
        (complete_first (udp_server_bridge lib boost connected) c.udp_server.pending outcome
          c.udp_server c)
        (complete_first-Passes connected c.udp_server.pending outcome c kept) kept without

  Settles-trans :
      (c c1 : Communication lib boost) (r : Result (Communication lib boost))
      → IsSettled c c1
      → Settles c1 r
      → Settles c r
  Settles-trans c c1 (ok c2) (kept, without, shrunk) (kept2, without2, shrunk2) =
      (kept2, without2, (λ id. omega (arith, shrunk id, shrunk2 id)))
  Settles-trans c c1 (err e) settled settled2 = tt

  then-Settles :
      (c : Communication lib boost) (r : Result (Communication lib boost))
      (f : Communication lib boost → Result (Communication lib boost))
      → Settles c r
      → ((c1 : Communication lib boost) → IsSettled c c1 → Settles c1 (f c1))
      → Settles c (r >>= f)
  then-Settles c (err e) f settled next = tt
  then-Settles c (ok c1) f settled next = Settles-trans c c1 (f c1) settled (next c1 settled)

  run-Settles :
      (events : List (Event boost)) (c : Communication lib boost)
      → HasReceived c.app
      → accepts c.client_pending ≡ 0
      → Settles c (run lib boost events c)
  unfolding run
  run-Settles [] c kept without = (kept, without, (λ id. omega arith))
  run-Settles (e ∷ events) c kept without =
      then-Settles c (handle_event lib boost e c) (run lib boost events)
        (handle_event-Settles e c kept without)
        (λ c1 (kept1, without1, shrunk). run-Settles events c1 kept1 without1)

  -- Once a notification was received, with no accept waiting at the client: whatever completes
  -- then, and as long as no exception ends the loop, the program makes no further session to the
  -- device, also when the one that it has is closed. The client has no session with an id of
  -- which it had none, no accept waits there, and the notification stays received.
  pub run-IsSettled :
      (events : List (Event boost)) (c : Communication lib boost) {c' : Communication lib boost}
      → HasReceived c.app
      → accepts c.client_pending ≡ 0
      → run lib boost events c ≡ ok c'
      → IsSettled c c'
  run-IsSettled events c kept without done =
      subst (Settles c) done (run-Settles events c kept without)
