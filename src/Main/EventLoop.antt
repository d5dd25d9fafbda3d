-- ===== src/Main/EventLoop.antt =====
-- The event loop of main.cc: `io_service.run()` runs the handler of an operation that has completed,
-- one after the other, in the order in which the network completes them.
use tv_cast.Prelude.{
  true, false, not, if◌then◌else◌, ◌&&◌, ℕ, Bool, List, [], ◌∷◌, Option, Bytes, Result, ok, err,
  ◌>>=◌, out_of_range, system_error, json_parser_error, check_failed, use_after_free,
  undefined_behaviour,
}
use tv_cast.Http.CParser.{HttpParserLib}
use tv_cast.App.Interfaces.{Boost, Endpoint}
use tv_cast.Tcp.{complete}
use tv_cast.Udp.{complete_first}
use tv_cast.Com.{Communication, server_of, with_server, client_of, with_client, udp_server_bridge}
use tv_cast.Com.Bridges.{server_observer, client_observer}
use tv_cast.Main.{prepare}

-- An operation of the server or of the client that completes, by its place among those that wait, with
-- bytes or an error; or the one of the server of datagrams that waits longest, with the endpoints that
-- can be connected to by then.
pub data Event (boost : Boost) : Type 0 where
  at_server : ℕ → Option Bytes → Event boost
  at_client : ℕ → Option Bytes → Event boost
  at_udp_server : Option Bytes → (Endpoint boost → Bool) → Event boost

pub data Progress : Type 0 where
  running : Progress
  returned : ℕ → Progress

abbrev pub is_empty : {A : Type 0} → List A → Bool
is_empty [] = true
is_empty (x ∷ xs) = false

module _ (lib : HttpParserLib) (boost : Boost) where
  unfoldable pub handle_event :
      Event boost → Communication lib boost → Result (Communication lib boost)
  handle_event (at_server n outcome) c = do
    t ← complete (server_observer lib boost) n outcome (server_of lib boost c)
    ok (with_server lib boost c t)
  handle_event (at_client n outcome) c = do
    t ← complete (client_observer lib boost) n outcome (client_of lib boost c)
    ok (with_client lib boost c t)
  handle_event (at_udp_server outcome connected) c = do
    (udp_server, c') ←
        complete_first (udp_server_bridge lib boost connected) c.udp_server.pending outcome
          c.udp_server c
    ok (record c' { udp_server = udp_server })

  -- What `io_service.run()` has done when these operations, and no other, have completed.
  unfoldable pub run :
      List (Event boost) → Communication lib boost → Result (Communication lib boost)
  run [] c = ok c
  run (e ∷ events) c = handle_event e c >>= run events

  -- Whether an operation waits, without which `io_service.run()` returns.
  abbrev pub is_waiting : Communication lib boost → Bool
  is_waiting c =
      not
        (is_empty c.server_pending && (is_empty c.client_pending && is_empty c.udp_server.pending))

  -- How far `main` is: it has returned, or it is in `io_service.run()`, where an operation waits.
  -- `catch` logs an exception, and the program ends with 0 as it does without one.
  abbrev pub caught : Result (Communication lib boost) → Result Progress
  caught (ok c) = ok (if is_waiting c then running else returned 0)
  caught (err out_of_range) = ok (returned 0)
  caught (err system_error) = ok (returned 0)
  caught (err json_parser_error) = ok (returned 0)
  caught (err check_failed) = err check_failed
  caught (err use_after_free) = err use_after_free
  caught (err undefined_behaviour) = err undefined_behaviour

  -- `main` behind the parsing of the command line, when these operations have completed.
  unfoldable pub main : Bytes → ℕ → ℕ → ℕ → Bool → List (Event boost) → Result Progress
  main url index made now joined events =
      caught (prepare lib boost url index made now joined >>= run events)
