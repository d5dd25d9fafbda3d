-- ===== src/Com/Loop.antt =====
-- What a session of the server does with the bytes that it reads.
use tv_cast.Prelude.{
  ◌≡◌, refl, sym, ap, ◌∙◌, true, if◌then◌else◌, ℕ, List, [], ◌∷◌, none, some, Bytes, Result, ok,
  err, ◌>>=◌, >>=-eq-ok,
}
use mathlib.Core.Path.{subst}
use tv_cast.Net.{HandleStatus}
use tv_cast.Http.CParser.{HttpParserLib}
use tv_cast.Http.Parser.{Parser, parse}
use tv_cast.Http.SessionObserver
use tv_cast.Http.SessionObserver.{
  SessionObserver, Call, handle_packet, close_session, create_http_parser,
}
use tv_cast.Http.SessionObserver.Lifetime.{Dispatched, handle_data-Dispatched}
use tv_cast.App.Types.{App}
use tv_cast.App.Interfaces.{Boost}
use tv_cast.App.Controller.{handle_loop_packet}
use tv_cast.Tcp.{Action, close}
use tv_cast.Com.Bridges.{loop_sessions, http_server_bridge, make_calls, bridge_data}

bind-ok : {A : Type 0} (m : Result A) → (m >>= λ a. ok a) ≡ m
bind-ok (ok a) = refl
bind-ok (err e) = refl

module _ (lib : HttpParserLib) (boost : Boost) where
  -- What a session's observer and the application are left with, and what the session is to do, for
  -- the state of the parser behind the bytes.
  abbrev pub AskedAt :
      HandleStatus
      → ℕ
      → lib.CState
      → Parser
      → App
      → SessionObserver lib
      → App
      → List Action
      → Type 0
  AskedAt HandleStatus.part_received id c p a o' a' actions =
      (a' ≡ a) × (actions ≡ []) × (o'.current_http_parser ≡ some (c, p))
  AskedAt HandleStatus.ok id c p a o' a' actions =
      (handle_loop_packet lib boost loop_sessions id p.packet a [] ≡ ok (a', actions))
      × (o'.current_http_parser ≡ none)
  AskedAt HandleStatus.error id c p a o' a' actions =
      (a' ≡ a) × (actions ≡ close id ∷ []) × (o'.current_http_parser ≡ none)

  abbrev pub Asked :
      ℕ → SessionObserver lib → App → Bytes → SessionObserver lib → App → List Action → Type 0
  Asked id o a bytes o' a' actions =
      let begun = create_http_parser lib o.current_http_parser in
      (c : lib.CState) × (p : Parser) × (parse lib bytes begun.0 begun.1 ≡ ok (c, p))
      × AskedAt p.status id c p a o' a' actions

  abbrev Bridged : Type 0
  Bridged = Result (SessionObserver lib × App × List Action)

  abbrev AskedOf : ℕ → SessionObserver lib → App → Bytes → Bridged → Type 0
  AskedOf id o a bytes (ok (o', a', actions)) = Asked id o a bytes o' a' actions
  AskedOf id o a bytes (err e) = Unit {0}

  Dispatched-Asked :
      (id : ℕ) (status : HandleStatus) (c : lib.CState) (p : Parser) (o o' : SessionObserver lib)
      (a a' : App) (calls : List Call) (actions : List Action)
      → o.observer ≡ true
      → Dispatched lib status c p o o' calls
      → make_calls lib boost (http_server_bridge lib boost) id calls (a, []) ≡ ok (a', actions)
      → AskedAt status id c p a o' a' actions
  unfolding make_calls http_server_bridge
  Dispatched-Asked id HandleStatus.part_received c p o o' a a' calls actions set (kept, called) e =
      let same : ok (a, []) ≡ ok (a', actions) =
        sym (ap (λ l. make_calls lib boost (http_server_bridge lib boost) id l (a, [])) called)
        ∙ e in
      (cc same, cc same, kept)
  Dispatched-Asked id HandleStatus.ok c p o o' a a' calls actions set (gone, called) e =
      let one : calls ≡ handle_packet p.packet ∷ [] =
        called ∙ ap (λ b. if b then handle_packet p.packet ∷ [] else []) set in
      (
        sym (bind-ok (handle_loop_packet lib boost loop_sessions id p.packet a []))
            ∙ sym (ap (λ l. make_calls lib boost (http_server_bridge lib boost) id l (a, [])) one)
            ∙ e,
        gone,
      )
  Dispatched-Asked id HandleStatus.error c p o o' a a' calls actions set (gone, called) e =
      let same : ok (a, close id ∷ []) ≡ ok (a', actions) =
        sym (ap (λ l. make_calls lib boost (http_server_bridge lib boost) id l (a, [])) called)
        ∙ e in
      (cc same, cc same, gone)

  -- Where a session of the server has handled what it read, with its observer registered, the
  -- status that its parser has behind the bytes decides: PART_RECEIVED keeps the parser, and neither
  -- the application nor the session does anything; OK deletes the parser, and the application and
  -- the session do what `HandleLoopPacket` does with the packet of the parser; ERROR deletes the
  -- parser, leaves the application, and closes the session.
  pub bridge_data-Asked :
      (id : ℕ) (o : SessionObserver lib) (a : App) (bytes : Bytes) {o' : SessionObserver lib}
      {a' : App} {actions : List Action}
      → o.observer ≡ true
      → bridge_data lib boost (http_server_bridge lib boost) id o a bytes ≡ ok (o', a', actions)
      → Asked id o a bytes o' a' actions
  unfolding bridge_data
  bridge_data-Asked id o a bytes {o'} {a'} {actions} set e =
      let ((status, o1, calls), eh, e1) = >>=-eq-ok (SessionObserver.handle_data lib bytes o) _ e in
      let ((a1, actions1), em, e2) =
        >>=-eq-ok (make_calls lib boost (http_server_bridge lib boost) id calls (a, [])) _ e1 in
      let (c, p, parsed, status_is, dispatched, kept) = handle_data-Dispatched lib bytes o eh in
      let asked = Dispatched-Asked id status c p o o1 a a1 calls actions1 set dispatched em in
      subst (AskedOf id o a bytes) e2
        (c, p, parsed, subst (λ s. AskedAt s id c p a o1 a1 actions1) (sym status_is) asked)
