-- ===== src/Main/Ends.antt =====
-- How the program starts, goes on and ends.
use tv_cast.Prelude.{
  Exception, if◌then◌else◌, ℕ, ◌+◌, ◌<◌, ◌^◌, ◌≡◌, refl, arith, Bool, true, false, List, Bytes,
  Result, ok, err, ◌>>=◌, check_failed, use_after_free, out_of_range, some, system_error,
  json_parser_error, undefined_behaviour, ◌⊎◌, inl, inr,
}
use mathlib.Core.Path.{subst}
use tv_cast.Http.CParser.{HttpParserLib}
use tv_cast.Http.SessionObserver
use tv_cast.App.Types.{App, new_app}
use tv_cast.App.Interfaces.{Boost}
use tv_cast.App.Controller.{play_video}
use tv_cast.Net.SessionHandler.Ids.{count_id}
use tv_cast.Tcp.{Tcp, create_session}
use tv_cast.Tcp.Uses.{uses}
use tv_cast.Tcp.Steps.{create_session-Outcome}
use tv_cast.Udp
use tv_cast.Com.{Communication, new, register_app_controller, start, server_of, with_server}
use tv_cast.Com.Bridges.{server_observer}
use tv_cast.Com.Promises.{server_promise}
use tv_cast.Com.Sound.{IsSound, Ends, counted_from, with_server-IsSound}
use tv_cast.Com.Serving.{with_app-IsSound}
use tv_cast.Main.{prepare}
use tv_cast.Main.EventLoop.{Event, Progress, running, returned, is_waiting, run, caught, main}
use tv_cast.Main.Running.{IsOrderly, then-Ends, run-Ends}

module _ (lib : HttpParserLib) (boost : Boost) where
  registered-IsSound :
      (index : ℕ) (a : App)
      → ((id : ℕ) → ¬ (a.loop_session ≡ some id))
      → IsSound lib boost (register_app_controller lib boost (new lib boost index a))
  unfolding register_app_controller uses count_id SessionObserver.create
  registered-IsSound index a nameless = record {
    server = record {
      owned = λ id used. absurd (omega arith);
      numbered = record { once = λ id. omega arith; below = λ id up. refl };
      held = tt;
      fixed = tt;
      named = λ id name. absurd (nameless id name);
      counted = omega arith;
      creates = (SessionObserver.create lib, refl, refl);
    };
    client = record {
      owned = λ id used. absurd (omega arith);
      numbered = record { once = λ id. omega arith; below = λ id up. refl };
      held = tt;
      fixed = λ id name. absurd (nameless id name);
      named = λ id name. absurd name;
      counted = omega arith;
      creates = (SessionObserver.create lib, refl, refl);
    };
    registered = refl;
  }

  joined-IsSound :
      (joined : Bool) (c : Communication lib boost)
      → IsSound lib boost c
      → Ends lib boost (
          Udp.join_multicast_group joined c.udp_server >>= λ joins.
          ok (record c { udp_server = Udp.receive joins }))
  unfolding Udp.join_multicast_group
  joined-IsSound true c sound = record {
    server = sound.server;
    client = sound.client;
    registered = sound.registered;
  }
  joined-IsSound false c sound = ((λ e. cc), (λ e. cc))

  started_next :
      (joined : Bool) (c : Communication lib boost) (r : Result (Tcp (server_observer lib boost)))
      → Ends lib boost (r >>= λ t. ok (with_server lib boost c t))
      → Ends lib boost (
          r >>= λ t.
          let c' = with_server lib boost c t in
          Udp.join_multicast_group joined c'.udp_server >>= λ joins.
          ok (record c' { udp_server = Udp.receive joins }))
  started_next joined c (ok t) sound = joined-IsSound joined (with_server lib boost c t) sound
  started_next joined c (err e) expected = expected

  start-Ends :
      (joined : Bool) (c : Communication lib boost)
      → IsSound lib boost c
      → c.index + 1 < 2 ^ 32
      → Ends lib boost (start lib boost joined c)
  unfolding start
  start-Ends joined c sound bound =
      let observer = server_observer lib boost in
      let promise = server_promise lib boost c.index in
      let live =
        counted_from observer (server_promise lib boost 0) c.index (server_of lib boost c)
          (omega arith) sound.server in
      let r = create_session observer (server_of lib boost c) in
      started_next joined c r (
        with_server-IsSound lib boost c r
          (create_session-Outcome observer promise (server_of lib boost c) live bound) sound)

  played_next :
      (url : Bytes) (now : ℕ) (r : Result (Communication lib boost))
      → Ends lib boost r
      → Ends lib boost (r >>= λ c. ok (record c { app = play_video url now c.app }))
  unfolding play_video
  played_next url now (ok c) sound =
      with_app-IsSound lib boost c (play_video url now c.app) refl sound
  played_next url now (err e) expected = expected

  prepare-Ends :
      (url : Bytes) (index made now : ℕ) (joined : Bool)
      → index + 1 < 2 ^ 32
      → Ends lib boost (prepare lib boost url index made now joined)
  unfolding prepare register_app_controller
  prepare-Ends url index made now joined bound =
      let c = register_app_controller lib boost (new lib boost index (new_app made)) in
      played_next url now (start lib boost joined c)
        (start-Ends joined c (registered-IsSound index (new_app made) (λ id e. cc e)) bound)

  -- Behind events that end like this: no exception was thrown, and `main` is in
  -- `io_service.run()` exactly where an operation waits, and has returned 0 where none does; or one
  -- was thrown, and `main` has returned 0.
  abbrev pub Progresses : Result (Communication lib boost) → Result Progress → Type 0
  Progresses r reached =
      ((c : Communication lib boost) × (r ≡ ok c)
        × (reached ≡ ok (if is_waiting lib boost c then running else returned 0)))
      ⊎ ((e : Exception) × (r ≡ err e) × (reached ≡ ok (returned 0)))

  caught-cases :
      (r : Result (Communication lib boost))
      → Ends lib boost r
      → Progresses r (caught lib boost r) ⊎ (caught lib boost r ≡ err undefined_behaviour)
  caught-cases (ok c) sound = inl (inl (c, refl, refl))
  caught-cases (err out_of_range) expected = inl (inr (_, refl, refl))
  caught-cases (err system_error) expected = inl (inr (_, refl, refl))
  caught-cases (err json_parser_error) expected = inl (inr (_, refl, refl))
  caught-cases (err check_failed) (checked, freed) = absurd (checked refl)
  caught-cases (err use_after_free) (checked, freed) = absurd (freed refl)
  caught-cases (err undefined_behaviour) expected = inr refl

  -- While the ids of the sessions do not run out, and each operation of a session that fails is
  -- the only one that waits on it then, the program goes on, returns 0, or writes outside an object:
  -- it fails no check, and no handler runs on a session that has been freed.
  pub main-cases :
      (url : Bytes) (index made now : ℕ) (joined : Bool) (events : List (Event boost))
      → index + 1 < 2 ^ 32
      → ((c : Communication lib boost)
          → prepare lib boost url index made now joined ≡ ok c
          → IsOrderly lib boost events c)
      → Progresses
          (prepare lib boost url index made now joined >>= run lib boost events)
          (main lib boost url index made now joined events)
        ⊎ (main lib boost url index made now joined events ≡ err undefined_behaviour)
  unfolding main
  main-cases url index made now joined events bound orderly =
      let started = prepare lib boost url index made now joined in
      caught-cases (started >>= run lib boost events) (
        then-Ends lib boost started (run lib boost events)
          (prepare-Ends url index made now joined bound)
          (λ c done sound. run-Ends lib boost events c sound (orderly c done)))

  -- From a start that succeeds, and while the ids of the sessions do not run out and each
  -- operation of a session that fails is the only one that waits on it then: after any sequence
  -- of events, the ids of the server's and of the client's sessions are distinct within each pool
  -- and below the next one; every operation that waits is on a session of its pool; the session
  -- of the loop is one of the server's; every session has an observer that is registered, and so
  -- has the server of datagrams; and both pools have a creator of observers.
  pub run-IsSound :
      (url : Bytes) (index made now : ℕ) (joined : Bool) (events : List (Event boost))
      {c c' : Communication lib boost}
      → index + 1 < 2 ^ 32
      → prepare lib boost url index made now joined ≡ ok c
      → IsOrderly lib boost events c
      → run lib boost events c ≡ ok c'
      → IsSound lib boost c'
  run-IsSound url index made now joined events {c} {c'} bound started orderly done =
      let sound : IsSound lib boost c =
        subst (Ends lib boost) started (prepare-Ends url index made now joined bound) in
      subst (Ends lib boost) done (run-Ends lib boost events c sound orderly)
