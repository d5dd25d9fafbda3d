-- ===== src/Http/SessionObserver.antt =====
-- `SessionObserver` and `SessionObserverCreator` of anet/http/session_observer.h and
-- session_observer.cc: the bytes that a session reads become packets for a `Packet::Observer`.
pub mod Lifetime
pub mod Guarded
pub mod RoundTrip
pub mod Pieces
use tv_cast.Prelude.{
  Bool, true, false, List, [], ◌∷◌, Option, none, some, if◌then◌else◌, Bytes, Result, ok, ◌>>=◌,
}
use tv_cast.Net.{HandleStatus}
use tv_cast.Http.CParser.{HttpParserLib}
use tv_cast.Http.Packet.{Packet}
use tv_cast.Http.Parser
use tv_cast.Http.Parser.{Parser, parse}

-- What the observer calls in the rest of the program, in order.
pub data Call : Type 0 where
  -- `observer_->HandlePacket`, `HandleWriteComplete`, `HandleClose`
  handle_packet : Packet → Call
  handle_write_complete : Call
  handle_close : Call
  -- `session->Close()`
  close_session : Call

module _ (lib : HttpParserLib) where
  open lib use {CState, http_parser_init}

  -- `observer` says whether `observer_` points to one; a parser is its library state and its own.
  pub record SessionObserver : Type 0 where
    pub observer : Bool
    pub current_http_parser : Option (CState × Parser)

  -- `SessionObserver()`
  abbrev pub new : SessionObserver
  new = record { observer = false; current_http_parser = none }

  abbrev pub register_observer : SessionObserver → SessionObserver
  register_observer o = record o { observer = true }

  -- `CreateHttpParser` and `DeleteHttpParser`
  abbrev pub create_http_parser : Option (CState × Parser) → CState × Parser
  create_http_parser none = (http_parser_init, Parser.new)
  create_http_parser (some p) = p

  abbrev pub delete_http_parser : SessionObserver → SessionObserver
  delete_http_parser o = record o { current_http_parser = none }

  abbrev pub notify : Bool → Call → List Call
  notify true c = c ∷ []
  notify false c = []

  -- The branches of `HandleData` behind `Parse`.
  unfoldable pub dispatch :
      HandleStatus → CState → Parser → SessionObserver → SessionObserver × List Call
  dispatch HandleStatus.part_received c p o = (record o { current_http_parser = some (c, p) }, [])
  dispatch HandleStatus.ok c p o =
      (delete_http_parser o, notify o.observer (handle_packet p.packet))
  dispatch HandleStatus.error c p o = (delete_http_parser o, close_session ∷ [])

  -- `HandleData`
  unfoldable pub handle_data :
      Bytes → SessionObserver → Result (HandleStatus × SessionObserver × List Call)
  handle_data buffer o = do
    let (c, p) = create_http_parser o.current_http_parser
    (c', p') ← parse lib buffer c p
    let (o', calls) = dispatch p'.status c' p' o
    ok (p'.status, o', calls)

  -- `HandleWriteComplete`
  unfoldable pub write_complete : SessionObserver → List Call
  write_complete o = notify o.observer handle_write_complete

  -- `HandleClose`
  unfoldable pub closed : SessionObserver → SessionObserver × List Call
  closed o = (delete_http_parser o, notify o.observer handle_close)

  -- `SessionObserverCreator::Create`
  unfoldable pub create : SessionObserver
  create = register_observer new
