-- ===== src/Http/SessionObserver/Lifetime.antt =====
-- The life of the parser that a session observer owns.
use tv_cast.Prelude.{
  ◌≡◌, refl, arith, List, [], ◌∷◌, none, some, Bytes, ok, >>=-eq-ok, if◌then◌else◌,
}
use tv_cast.Net.{HandleStatus}
use tv_cast.Http.CParser.{HttpParserLib}
use tv_cast.Http.Parser.{Parser, parse}
use tv_cast.Http.SessionObserver.{
  SessionObserver, Call, handle_packet, close_session, create_http_parser, dispatch, handle_data,
}

module _ (lib : HttpParserLib) where
  -- What `HandleData` does, by the status that it returns: it keeps the parser for the next read
  -- and calls nobody; or deletes it and hands the packet over, if somebody is registered; or
  -- deletes it and closes the session.
  abbrev pub Dispatched :
      HandleStatus
      → lib.CState
      → Parser
      → SessionObserver lib
      → SessionObserver lib
      → List Call
      → Type 0
  Dispatched HandleStatus.part_received c p o o' calls =
      (o'.current_http_parser ≡ some (c, p)) × (calls ≡ [])
  Dispatched HandleStatus.ok c p o o' calls =
      (o'.current_http_parser ≡ none)
      × (calls ≡ (if o.observer then handle_packet p.packet ∷ [] else []))
  Dispatched HandleStatus.error c p o o' calls =
      (o'.current_http_parser ≡ none) × (calls ≡ close_session ∷ [])

  dispatch-Dispatched :
      (s : HandleStatus) (c : lib.CState) (p : Parser) (o : SessionObserver lib)
      → Dispatched s c p o (dispatch lib s c p o).0 (dispatch lib s c p o).1
  unfolding dispatch
  dispatch-Dispatched HandleStatus.part_received c p o = (refl, refl)
  dispatch-Dispatched HandleStatus.ok c p o = (refl, ground arith)
  dispatch-Dispatched HandleStatus.error c p o = (refl, refl)

  dispatch-observer :
      (s : HandleStatus) (c : lib.CState) (p : Parser) (o : SessionObserver lib)
      → (dispatch lib s c p o).0.observer ≡ o.observer
  unfolding dispatch
  dispatch-observer HandleStatus.part_received c p o = refl
  dispatch-observer HandleStatus.ok c p o = refl
  dispatch-observer HandleStatus.error c p o = refl

  abbrev pub HandledData :
      Bytes → SessionObserver lib → HandleStatus → SessionObserver lib → List Call → Type 0
  HandledData buffer o s o' calls =
      let begun = create_http_parser lib o.current_http_parser in
      (c : lib.CState) × (p : Parser) × (parse lib buffer begun.0 begun.1 ≡ ok (c, p))
      × (p.status ≡ s)
      × Dispatched s c p o o' calls
      × (o'.observer ≡ o.observer)

  -- Where `HandleData` returns, it went on with the parser that it had, or with a new one; the
  -- status returned is the one that `Parse` left, and decides what was done: PART_RECEIVED keeps
  -- the parser and calls nobody, OK deletes it and hands the packet to the observer if there is
  -- one, ERROR deletes it and closes the session. Whoever was registered stays registered.
  pub handle_data-Dispatched :
      (buffer : Bytes) (o : SessionObserver lib) {s : HandleStatus} {o' : SessionObserver lib}
      {calls : List Call}
      → handle_data lib buffer o ≡ ok (s, o', calls)
      → HandledData buffer o s o' calls
  unfolding handle_data
  handle_data-Dispatched buffer o {s} {o'} {calls} h =
      let begun = create_http_parser lib o.current_http_parser in
      let ((c, p), parsed, rest) = >>=-eq-ok (parse lib buffer begun.0 begun.1) _ h in
      let status_is : p.status ≡ s = cc rest in
      let observer_is : (dispatch lib p.status c p o).0 ≡ o' = cc rest in
      let calls_are : (dispatch lib p.status c p o).1 ≡ calls = cc rest in
      (
        c,
        p,
        parsed,
        status_is,
        rw (← status_is, ← observer_is, ← calls_are) (dispatch-Dispatched p.status c p o),
        rw (← observer_is) (dispatch-observer p.status c p o),
      )
