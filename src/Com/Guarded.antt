-- ===== src/Com/Guarded.antt =====
-- A session's observer over a bridge whose calls are defined.
pub mod Calls
use tv_cast.Prelude.{
  ℕ, ◌≡◌, refl, List, [], ◌∷◌, Bool, true, false, Option, none, some, if◌then◌else◌, Bytes, codes,
  bytes_eq, eq_int, ◌&&◌, Result, ok, err, ◌>>=◌, Defined, bind-Defined, if-Defined,
  ThrowsRange-Defined,
}
use mathlib.Core.Path.{subst}
use tv_cast.Net.{HandleStatus}
use tv_cast.Http.CParser.{HttpParserLib}
use tv_cast.Http.Packet.{Packet, serialize, method_get}
use tv_cast.Http.Packet.Fits.{Fits, serialize-Defined}
use tv_cast.Http.Parser.Safety.{CallsInOrder}
use tv_cast.Http.SessionObserver
use tv_cast.Http.SessionObserver.{
  SessionObserver, Call, handle_packet, handle_write_complete, handle_close, close_session,
}
use tv_cast.Http.SessionObserver.Guarded.{
  IsGuarded, AtMostOne, GuardedNext, notify-AtMostOne, handle_data-Defined,
}
use tv_cast.Http.Url
use tv_cast.App.Types.{App}
use tv_cast.App.Interfaces.{Boost}
use tv_cast.App.Command.{create_rss_packet}
use tv_cast.App.DeviceInfo.{read_device_info}
use tv_cast.App.Throws.{of_string-ThrowsRange, read_device_info-ThrowsRange}
use tv_cast.App.Requests.{write_response, respond_to, response_video_list, video_list_packet}
use tv_cast.App.Controller.{
  handle_loop_packet, route_request, handle_video_list_request, is_request, handle_service_packet,
}
use tv_cast.Tcp.{Action}
use tv_cast.Tcp.Guarded.{Guard, Guards}
use tv_cast.Com.Bridges.{
  State, loop_sessions, http_server_bridge, http_client_bridge, make_calls, bridge_data,
  bridge_written, bridge_closed, observer_of, server_observer, client_observer,
}

module _ (lib : HttpParserLib) (boost : Boost) (order : CallsInOrder lib) where
  abbrev pub Answered : State lib boost → Type 0
  Answered s = Unit {0}

  module _ (bridge : ℕ → Call → State lib boost → Result (State lib boost))
      (Admitted : Packet → App → Type 0) where
    -- A packet that is handled is admitted.
    abbrev pub AdmitsCall : App → Call → Type 0
    AdmitsCall a (handle_packet p) = Admitted p a
    AdmitsCall a _ = Unit {0}

    -- The parsers of the sessions are in safe states, and a packet that a read completes is
    -- admitted.
    abbrev pub bridge_guard : Guard (SessionObserver lib) App
    bridge_guard = record {
      Holds = IsGuarded lib order;
      Admits = λ o a bytes.
          (status : HandleStatus) (o' : SessionObserver lib) (p : Packet)
          → SessionObserver.handle_data lib bytes o ≡ ok (status, o', handle_packet p ∷ [])
          → Admitted p a;
    }

    module _
        (calls : (id : ℕ) (c : Call) (a : App)
          → AdmitsCall a c
          → Defined Answered (bridge id c (a, []))) where
      made-Defined :
          (id : ℕ) (a : App) (called : List Call)
          → AtMostOne lib order called
          → ((c : Call) → called ≡ c ∷ [] → AdmitsCall a c)
          → Defined Answered (make_calls lib boost bridge id called (a, []))
      unfolding make_calls
      made-Defined id a [] one admits = tt
      made-Defined id a (c ∷ []) one admits =
          bind-Defined Answered (bridge id c (a, [])) _ (calls id c a (admits c refl))
            (λ s done answered. tt)
      made-Defined id a (c ∷ d ∷ called) one admits = absurd one

      abbrev Next : SessionObserver lib × App × List Action → Type 0
      Next (o, a, actions) = IsGuarded lib order o

      admitted-call :
          (o o' : SessionObserver lib) (a : App) (bytes : Bytes) (status : HandleStatus)
          (called : List Call) (c : Call)
          → SessionObserver.handle_data lib bytes o ≡ ok (status, o', called)
          → bridge_guard.Admits o a bytes
          → called ≡ c ∷ []
          → AdmitsCall a c
      admitted-call o o' a bytes status called (handle_packet p) done admits one =
          admits status o' p (rw one at done)
      admitted-call o o' a bytes status called handle_write_complete done admits one = tt
      admitted-call o o' a bytes status called handle_close done admits one = tt
      admitted-call o o' a bytes status called close_session done admits one = tt

      bridge_data-Defined :
          (id : ℕ) (o : SessionObserver lib) (a : App) (bytes : Bytes)
          → IsGuarded lib order o
          → bridge_guard.Admits o a bytes
          → Defined Next (bridge_data lib boost bridge id o a bytes)
      unfolding bridge_data
      bridge_data-Defined id o a bytes guarded admits =
          bind-Defined Next (SessionObserver.handle_data lib bytes o) _
            (handle_data-Defined lib order bytes o guarded)
            (λ (status, o', called) done (guarded', one).
              bind-Defined Next (make_calls lib boost bridge id called (a, [])) _
                (made-Defined id a called one
                  (λ c same. admitted-call o o' a bytes status called c done admits same))
                (λ s made answered. guarded'))

      admits-notified :
          (b : Bool) (a : App) (c c' : Call)
          → AdmitsCall a c
          → SessionObserver.notify lib b c ≡ c' ∷ []
          → AdmitsCall a c'
      admits-notified true a c c' admits one = subst (AdmitsCall a) (cc one) admits
      admits-notified false a c c' admits one = cc

      notified-Defined :
          (id : ℕ) (b : Bool) (a : App) (c : Call)
          → AdmitsCall a c
          → Defined Answered
              (make_calls lib boost bridge id (SessionObserver.notify lib b c) (a, []))
      notified-Defined id b a c admits =
          made-Defined id a (SessionObserver.notify lib b c) (notify-AtMostOne lib order b c)
            (λ c' one. admits-notified b a c c' admits one)

      -- Each call of an observer over such a bridge is defined, and keeps its parser safe.
      pub observer-Guards : Guards bridge_guard (observer_of lib boost bridge)
      unfolding bridge_written bridge_closed SessionObserver.write_complete SessionObserver.closed
      observer-Guards = record {
        handled = λ id o a bytes guarded admits. bridge_data-Defined id o a bytes guarded admits;
        written = λ id o a guarded.
            bind-Defined Next
              (make_calls lib boost bridge id
                (SessionObserver.notify lib o.observer handle_write_complete) (a, []))
              _ (notified-Defined id o.observer a handle_write_complete tt)
              (λ s done answered. guarded);
        closed = λ id o a.
            bind-Defined (λ a'. Unit {0})
              (make_calls lib boost bridge id (SessionObserver.notify lib o.observer handle_close)
                (a, []))
              _ (notified-Defined id o.observer a handle_close tt) (λ s done answered. tt);
      }
