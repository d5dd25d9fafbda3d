-- ===== src/Http/SessionObserver/Guarded.antt =====
-- A session observer whose parser never writes outside its body buffer.
use tv_cast.Prelude.{
  [], ◌∷◌, true, false, List, Option, none, some, Bool, Bytes, Result, ok, err, ◌>>=◌, Defined,
}
use tv_cast.Net.{HandleStatus}
use tv_cast.Http.CParser.{HttpParserLib}
use tv_cast.Http.Parser.{Parser, parse}
use tv_cast.Http.Parser.Safety.{IsSafe, CallsInOrder, parse-ParseOutcome, ParseOutcome}
use tv_cast.Http.SessionObserver.{
  SessionObserver, Call, handle_packet, notify, create_http_parser, handle_data, dispatch, create,
}

module _ (lib : HttpParserLib) (order : CallsInOrder lib) where
  open order use {phase_of, at_start}

  abbrev SafeParser : Option (lib.CState × Parser) → Type 0
  SafeParser none = Unit {0}
  SafeParser (some (c, p)) = IsSafe (phase_of c) p

  -- The parser of the observer, if it has one, is in a safe state.
  abbrev pub IsGuarded : SessionObserver lib → Type 0
  IsGuarded o = SafeParser o.current_http_parser

  -- No more than one call is made.
  abbrev pub AtMostOne : List Call → Type 0
  AtMostOne [] = Unit {0}
  AtMostOne (c ∷ []) = Unit {0}
  AtMostOne (c ∷ d ∷ calls) = ⊥

  abbrev pub GuardedNext : HandleStatus × SessionObserver lib × List Call → Type 0
  GuardedNext (status, o, calls) = IsGuarded o × AtMostOne calls

  pub create-IsGuarded : IsGuarded (create lib)
  unfolding create
  create-IsGuarded = tt

  pub notify-AtMostOne : (b : Bool) (c : Call) → AtMostOne (notify lib b c)
  notify-AtMostOne true c = tt
  notify-AtMostOne false c = tt

  dispatch-IsGuarded :
      (s : HandleStatus) (c : lib.CState) (p : Parser) (o : SessionObserver lib)
      → IsSafe (phase_of c) p
      → IsGuarded (dispatch lib s c p o).0 × AtMostOne (dispatch lib s c p o).1
  unfolding dispatch
  dispatch-IsGuarded HandleStatus.part_received c p o safe = (safe, tt)
  dispatch-IsGuarded HandleStatus.ok c p o safe =
      (tt, notify-AtMostOne o.observer (handle_packet p.packet))
  dispatch-IsGuarded HandleStatus.error c p o safe = (tt, tt)

  parsed-Defined :
      (o : SessionObserver lib) (m : Result (lib.CState × Parser))
      → ParseOutcome phase_of m
      → Defined GuardedNext (
          m >>= λ (c, p).
          ok (p.status, (dispatch lib p.status c p o).0, (dispatch lib p.status c p o).1))
  parsed-Defined o (ok (c, p)) safe = dispatch-IsGuarded p.status c p o safe
  parsed-Defined o (err e) thrown = λ f. cc

  made-IsSafe :
      (held : Option (lib.CState × Parser))
      → SafeParser held
      → IsSafe (phase_of (create_http_parser lib held).0) (create_http_parser lib held).1
  made-IsSafe none safe = rw at_start tt
  made-IsSafe (some (c, p)) safe = safe

  pub handle_data-Defined :
      (bytes : Bytes) (o : SessionObserver lib)
      → IsGuarded o
      → Defined GuardedNext (handle_data lib bytes o)
  unfolding handle_data
  handle_data-Defined bytes o safe =
      let begun = create_http_parser lib o.current_http_parser in
      parsed-Defined o (parse lib bytes begun.0 begun.1) (
        parse-ParseOutcome lib order bytes begun.0 begun.1 (made-IsSafe o.current_http_parser safe))
