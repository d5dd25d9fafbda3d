-- ===== src/Tests/Network.antt =====
-- Sessions, servers and the controller.
use mathlib.Core.Path.{subst}
use tv_cast.Prelude.{
  ℕ, ◌+◌, ◌≡◌, ◌≢◌, refl, arith, List, [], ◌∷◌, Option, none, some, Bytes, codes, memcpy_at,
  to_string, bytes_eq, lookup, Result, ok, err, ◌>>=◌, use_after_free, check_failed,
}
use tv_cast.Http.SessionObserver
use tv_cast.Http.Parser.{parse, run, settle, handle}
use tv_cast.App.Types.{App, new_app}
use tv_cast.App.Controller.{
  handle_loop_packet, route_request, is_request, notify_loop_session_close,
}
use tv_cast.Http.Url
use tv_cast.Http.Query.{parse_query, scan, step, store}
use tv_cast.Http.Packet.{serialize, assemble, copy_to, start_string, header_block}
use tv_cast.Net.SessionHandler.{
  Session, State, SessionHandler, get_new_session_accessor, add_session,
}
use tv_cast.Net.SessionHandler.Ids.{IsNumbered, count_id}
use tv_cast.Tcp.{
  async_read_some, async_write, async_accept, write_buffer, ObserverInterface, Tcp, new,
  create_session, complete, complete_all, complete_operation, find_session, pick,
}
use tv_cast.Tcp.Life.{IsOrderly, complete_all-defined}
use tv_cast.Tcp.Contract.{Promise, Keeps}
use tv_cast.Tcp.Uses.{uses}
use tv_cast.Tcp.Freed.{complete_all-freed}
use tv_cast.Udp
use tv_cast.Udp.{PacketObserver}
use tv_cast.Udp.Receiving.{complete_all-started}
use tv_cast.Com.Bridges.{server_observer, http_server_bridge, bridge_data, bridge_closed}
use tv_cast.Com.Loop.{Asked, bridge_data-Asked}
use tv_cast.Main.Ready.{IsReady, prepare-IsReady}
use tv_cast.Tests.Setup.{lib, boost}

-- Two sessions with the ids 0 and 1.
abbrev two : SessionHandler ℕ
two = record {
  creator = some (some 8);
  session_pool =
      record { accessor = record { handler = 8; k_id = 0 }; state = State.run }
      ∷ record { accessor = record { handler = 8; k_id = 1 }; state = State.run }
      ∷ [];
}

two-IsNumbered : IsNumbered 2 two.session_pool
unfolding count_id
two-IsNumbered = record { once = λ id. ground arith; below = λ id up. ground arith }

-- An observer that answers what it reads with the same bytes, and counts.
abbrev echo : ObserverInterface ℕ ℕ
echo = record {
  handle_data = λ id h a bytes. ok (h, a + 1, write_buffer id bytes ∷ []);
  handle_write_complete = λ id h a. ok (h, a, []);
  handle_close = λ id h a. ok a;
}

-- It promises to name no session.
abbrev plain : Promise ℕ ℕ
plain = record {
  Holds = λ h. Unit {0};
  Fixed = λ a. Unit {0};
  Names = λ a id. a + 1 ≡ 0;
  least = 0;
}

echo-Keeps : Keeps plain echo
echo-Keeps = record {
  handled = λ id h a bytes holds fixed. (tt, tt, (λ k name. absurd (omega arith)), (refl, tt));
  written = λ id h a holds fixed. (tt, tt, (λ k name. absurd (omega arith)), tt);
  closed = λ id h a holds fixed. (tt, (λ k name. absurd (omega arith)));
}

abbrev OrderlyOf : List (ℕ × Option Bytes) → Result (Tcp echo) → Type 0
OrderlyOf events (ok t) = IsOrderly echo events t
OrderlyOf events (err e) = Unit {0}

-- A connection, a message, its answer sent, and the end of the connection.
abbrev last : List (ℕ × Option Bytes)
last = (1, none) ∷ []

abbrev written : List (ℕ × Option Bytes)
written = (1, some []) ∷ last

abbrev heard : List (ℕ × Option Bytes)
heard = (0, some (codes "hi")) ∷ written

abbrev events : List (ℕ × Option Bytes)
events = (0, some []) ∷ heard

events-IsOrderly : OrderlyOf events (create_session echo (new echo (some 8) 0 0))
unfolding create_session complete uses get_new_session_accessor complete_operation add_session
events-IsOrderly = (
  omega arith,
  (λ e. cc),
  (λ t e. subst (OrderlyOf heard) e (
    omega arith,
    (λ e. cc),
    (λ t e. subst (OrderlyOf written) e (
      omega arith,
      (λ e. cc),
      (λ t e. subst (OrderlyOf last) e (omega arith, (λ e. refl), (λ t e. tt))),
    )),
  )),
)

abbrev ended : Result (Tcp echo)
ended = create_session echo (new echo (some 8) 0 0) >>= complete_all echo events

complete_all-defined_example : (ended ≢ err use_after_free) × (ended ≢ err check_failed)
complete_all-defined_example =
    complete_all-defined echo plain 8 0 0 events echo-Keeps tt tt (λ id name. absurd (omega arith))
      (omega arith) (omega arith) (λ t e. subst (OrderlyOf events) e events-IsOrderly)

-- The server when the answer to the first request waits to be written, and a read behind it.
abbrev made : ℕ → Session (SessionObserver.SessionObserver lib)
made id = record {
  accessor = record { handler = SessionObserver.create lib; k_id = id };
  state = State.run;
}

abbrev answering : Tcp (server_observer lib boost)
answering = record {
  sessions = record {
    creator = some (some (SessionObserver.create lib));
    session_pool = made 0 ∷ made 1 ∷ [];
  };
  index = 2;
  shared = new_app 5;
  pending = async_accept 1 ∷ async_write 0 (codes "x") ∷ async_read_some 0 ∷ [];
  sockets = 0 ∷ [];
}

answering-IsNumbered : IsNumbered 2 answering.sessions.session_pool
unfolding count_id
answering-IsNumbered = record { once = λ id. ground arith; below = λ id up. ground arith }

complete_all-freed_example :
    complete_all (server_observer lib boost) ((1, none) ∷ (1, none) ∷ []) answering
    ≡ err use_after_free
unfolding find_session pick bridge_closed SessionObserver.closed SessionObserver.create
    http_server_bridge notify_loop_session_close
complete_all-freed_example =
    complete_all-freed (server_observer lib boost) 0 1 1 (async_write 0 (codes "x"))
      (async_read_some 0) (async_accept 1 ∷ async_read_some 0 ∷ []) (async_accept 1 ∷ []) none
      (SessionObserver.create lib) (new_app 5) answering answering-IsNumbered refl refl refl refl
      refl refl

-- A counter of datagrams.
abbrev counter : PacketObserver ℕ
counter = record { handle_data = λ a bytes. ok (a + 1); handle_write_complete = λ a. ok a }

complete_all-started_example :
    Udp.complete_all counter
      (some [] ∷ none ∷ some [] ∷ [])
      (Udp.receive (Udp.register_observer Udp.new))
      0
    ≡ ok (Udp.register_observer Udp.new, 1)
complete_all-started_example = complete_all-started counter (some [] ∷ none ∷ some [] ∷ []) 0

-- The library takes the bytes "abc" as a whole packet, which the application handles.
abbrev taken : App
taken = record (new_app 5) { loop_session = some 3 }

bridged :
    bridge_data lib boost
      (http_server_bridge lib boost)
      3
      (SessionObserver.create lib)
      (new_app 5)
      (codes "abc")
    ≡ ok (SessionObserver.create lib, taken, [])
unfolding bridge_data SessionObserver.handle_data parse run SessionObserver.create handle memcpy_at
    SessionObserver.dispatch settle http_server_bridge handle_loop_packet serialize assemble copy_to
    start_string to_string header_block Url.of_string is_request route_request parse_query scan step
    store Url.get_string Url.is_set Url.parse bytes_eq lookup
bridged = refl

bridge_data-Asked_example :
    Asked lib boost 3
      (SessionObserver.create lib)
      (new_app 5)
      (codes "abc")
      (SessionObserver.create lib)
      taken
      []
unfolding SessionObserver.create
bridge_data-Asked_example =
    bridge_data-Asked lib boost 3 (SessionObserver.create lib) (new_app 5) (codes "abc") refl
      bridged

prepare-IsReady_example : IsReady lib boost (codes "http://a/b.mp4") 0 5 6
prepare-IsReady_example = prepare-IsReady lib boost (codes "http://a/b.mp4") 0 5 6
