-- ===== src/Com/Registered.antt =====
-- What an observer of sessions that is registered makes of a bridge.
use tv_cast.Prelude.{
  ℕ, Bool, ◌≡◌, ◌≢◌, List, [], Result, ok, err, ◌>>=◌, IsExpected, Behaves, true, false, ◌⊎◌, inr,
}
use tv_cast.Net.{HandleStatus}
use tv_cast.Http.CParser.{HttpParserLib}
use tv_cast.Http.Parser.{Parser, parse}
use tv_cast.Http.Parser.Throws.{parse-Behaves}
use tv_cast.Http.SessionObserver
use tv_cast.Http.SessionObserver.{
  SessionObserver, Call, create_http_parser, handle_packet, handle_write_complete, handle_close,
  close_session, dispatch,
}
use tv_cast.App.Types.{App}
use tv_cast.App.Interfaces.{Boost}
use tv_cast.Tcp.{Action}
use tv_cast.Tcp.Contract.{On, Promise, Kept, Dropped, Keeps}
use tv_cast.Com.Bridges.{observer_of, make_calls, bridge_data, bridge_written, bridge_closed}

module _ (lib : HttpParserLib) (boost : Boost) where
  module _ (bridge : ℕ → Call → App × List Action → Result (App × List Action))
      (Fixed : App → Type 0) (Names : App → ℕ → Type 0) (least : ℕ) where
    -- Every session has an observer that is registered.
    abbrev pub registered : Promise (SessionObserver lib) App
    registered = record {
      Holds = λ o. o.observer ≡ true;
      Fixed = Fixed;
      Names = Names;
      least = least;
    }

    -- One call of a bridge.
    abbrev pub Called : ℕ → App → Result (App × List Action) → Type 0
    Called id a (ok (a', actions)) =
        Fixed a' × ((k : ℕ) → Names a' k → (k ≡ id) ⊎ Names a k) × On id actions
    Called id a (err e) = IsExpected e

    abbrev pub CalledLast : ℕ → App → Result (App × List Action) → Type 0
    CalledLast id a (ok (a', actions)) = Fixed a' × ((k : ℕ) → Names a' k → (k ≢ id) × Names a k)
    CalledLast id a (err e) = IsExpected e

    called-Kept :
        (id : ℕ) (a : App) (o : SessionObserver lib) (m : Result (App × List Action))
        → o.observer ≡ true
        → Called id a m
        → Kept registered id a
            ((m >>= make_calls lib boost bridge id []) >>= λ (a', actions). ok (o, a', actions))
    unfolding make_calls
    called-Kept id a o (ok (a', actions)) set (fixed, names, on) = (set, fixed, names, on)
    called-Kept id a o (err e) set expected = expected

    module _
        (calls : (id : ℕ) (c : Call) (a : App) → Fixed a → Called id a (bridge id c (a, []))) where
      notified-Kept :
          (id : ℕ) (a : App) (o : SessionObserver lib) (b : Bool) (c : Call)
          → o.observer ≡ true
          → Fixed a
          → Kept registered id a (
              make_calls lib boost bridge id (SessionObserver.notify lib b c) (a, [])
              >>= λ (a', actions). ok (o, a', actions))
      unfolding make_calls
      notified-Kept id a o true c set fixed =
          called-Kept id a o (bridge id c (a, [])) set (calls id c a fixed)
      notified-Kept id a o false c set fixed = (set, fixed, (λ k name. inr name), tt)

      dispatched-Kept :
          (id : ℕ) (a : App) (o : SessionObserver lib) (s : HandleStatus) (c : lib.CState)
          (p : Parser)
          → o.observer ≡ true
          → Fixed a
          → Kept registered id a (
              make_calls lib boost bridge id (dispatch lib s c p o).1 (a, []) >>= λ (a', actions).
              ok ((dispatch lib s c p o).0, a', actions))
      unfolding dispatch make_calls
      dispatched-Kept id a o HandleStatus.part_received c p set fixed =
          (set, fixed, (λ k name. inr name), tt)
      dispatched-Kept id a o HandleStatus.ok c p set fixed =
          notified-Kept id a _ o.observer (handle_packet p.packet) set fixed
      dispatched-Kept id a o HandleStatus.error c p set fixed =
          called-Kept id a _ (bridge id close_session (a, [])) set (calls id close_session a fixed)

      parsed-Kept :
          (id : ℕ) (a : App) (o : SessionObserver lib) (m : Result (lib.CState × Parser))
          → Behaves m
          → o.observer ≡ true
          → Fixed a
          → Kept registered id a (
              (m >>= λ (c', p').
              ok
                (p'.status, (dispatch lib p'.status c' p' o).0, (dispatch lib p'.status c' p' o).1))
              >>= λ (status, o', called).
                  make_calls lib boost bridge id called (a, []) >>= λ (a', actions).
                  ok (o', a', actions))
      parsed-Kept id a o (ok (c, p)) behaves set fixed =
          dispatched-Kept id a o p.status c p set fixed
      parsed-Kept id a o (err e) behaves set fixed = behaves

      closed-Dropped :
          (id : ℕ) (a : App) (b : Bool)
          → b ≡ true
          → CalledLast id a (bridge id handle_close (a, []))
          → Dropped registered id a (
              make_calls lib boost bridge id (SessionObserver.notify lib b handle_close) (a, [])
              >>= λ (a', actions). ok a')
      unfolding make_calls
      closed-Dropped id a false set last = absurd cc
      closed-Dropped id a true set last =
          elim (bridge id handle_close (a, []))
              as (λ m.
                CalledLast id a m
                → Dropped registered id a
                    ((m >>= make_calls lib boost bridge id []) >>= λ (a', actions). ok a')) [
                      | ok (a', actions) ↦ λ l. l
                      | err e ↦ λ l. l
                    ]
            last

      pub registered-Keeps :
          ((id : ℕ) (a : App) → Fixed a → CalledLast id a (bridge id handle_close (a, [])))
          → Keeps registered (observer_of lib boost bridge)
      unfolding bridge_data bridge_written bridge_closed SessionObserver.handle_data
          SessionObserver.write_complete SessionObserver.closed
      registered-Keeps last = record {
        handled = λ id o a bytes set fixed.
            let begun = create_http_parser lib o.current_http_parser in
            parsed-Kept id a o (parse lib bytes begun.0 begun.1)
              (parse-Behaves lib bytes begun.0 begun.1) set fixed;
        written =
            λ id o a set fixed. notified-Kept id a o o.observer handle_write_complete set fixed;
        closed = λ id o a set fixed. closed-Dropped id a o.observer set (last id a fixed);
      }
