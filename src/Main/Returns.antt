-- ===== src/Main/Returns.antt =====
-- How far the program is, when no write leaves its buffer.
use tv_cast.Prelude.{
  ℕ, ◌≡◌, ◌≢◌, refl, Bool, List, Bytes, Result, ok, err, ◌>>=◌, Defined, bind-Defined, if-Defined,
  undefined_behaviour, out_of_range, system_error, json_parser_error, check_failed, use_after_free,
}
use tv_cast.Http.CParser.{HttpParserLib}
use tv_cast.Http.Parser.Safety.{CallsInOrder}
use tv_cast.Http.SessionObserver.Guarded.{create-IsGuarded}
use tv_cast.App.Types.{App, new_app}
use tv_cast.App.Interfaces.{Boost}
use tv_cast.App.Controller.{play_video}
use tv_cast.Tcp.{create_session}
use tv_cast.Tcp.Guarded.{create_session-Defined}
use tv_cast.Udp
use tv_cast.Com.{Communication, new, register_app_controller, start, server_of, with_server}
use tv_cast.Com.Bridges.{server_observer}
use tv_cast.Com.Guarded.Calls.{server_guard}
use tv_cast.Main.{prepare}
use tv_cast.Main.EventLoop.{Event, run, caught, main}
use tv_cast.Main.Guarded.{IsGuarded, AllAdmitted, run-Defined}

module _ (lib : HttpParserLib) (boost : Boost) (order : CallsInOrder lib) where
  registered-IsGuarded :
      (index : ℕ) (a : App)
      → IsGuarded lib boost order (register_app_controller lib boost (new lib boost index a))
  unfolding register_app_controller
  registered-IsGuarded index a = record {
    server = record { creates = create-IsGuarded lib order; held = tt };
    client = record { creates = create-IsGuarded lib order; held = tt };
  }

  start-Defined :
      (joined : Bool) (c : Communication lib boost)
      → IsGuarded lib boost order c
      → Defined (IsGuarded lib boost order) (start lib boost joined c)
  unfolding start Udp.join_multicast_group
  start-Defined joined c guarded =
      let Good = IsGuarded lib boost order in
      bind-Defined Good (create_session (server_observer lib boost) (server_of lib boost c)) _
        (create_session-Defined (server_guard lib boost order) (server_observer lib boost)
          (server_of lib boost c) guarded.server)
        (λ t done held.
          bind-Defined Good (Udp.join_multicast_group joined (with_server lib boost c t).udp_server)
            _ (if-Defined (λ s. Unit {0}) joined _ _ tt (λ e. cc))
            (λ joins done' u. record { server = held; client = guarded.client }))

  prepare-Defined :
      (url : Bytes) (index made now : ℕ) (joined : Bool)
      → Defined (IsGuarded lib boost order) (prepare lib boost url index made now joined)
  unfolding prepare play_video
  prepare-Defined url index made now joined =
      let Good = IsGuarded lib boost order in
      let c = register_app_controller lib boost (new lib boost index (new_app made)) in
      bind-Defined Good (start lib boost joined c) _
        (start-Defined joined c (registered-IsGuarded index (new_app made)))
        (λ c' done guarded. record { server = guarded.server; client = guarded.client })

  caught_defined :
      (r : Result (Communication lib boost))
      → Defined (IsGuarded lib boost order) r
      → caught lib boost r ≢ err undefined_behaviour
  caught_defined (ok c) defined e = cc
  caught_defined (err out_of_range) defined e = cc
  caught_defined (err system_error) defined e = cc
  caught_defined (err json_parser_error) defined e = cc
  caught_defined (err check_failed) defined e = cc
  caught_defined (err use_after_free) defined e = cc
  caught_defined (err undefined_behaviour) defined e = defined refl

  -- If the library calls back in the order of a message, then whatever bytes come in, and in
  -- whatever order the operations complete or fail, the program does not end in a copy outside
  -- its buffer, as long as, at every event behind a start that succeeds, each packet that a read
  -- completes, and each packet that the application may send then, has less than 2 ^ 32 bytes.
  pub main-undefined_behaviour :
      (url : Bytes) (index made now : ℕ) (joined : Bool) (events : List (Event boost))
      → ((c : Communication lib boost)
          → prepare lib boost url index made now joined ≡ ok c
          → AllAdmitted lib boost order events c)
      → main lib boost url index made now joined events ≢ err undefined_behaviour
  unfolding main
  main-undefined_behaviour url index made now joined events admits =
      let started = prepare lib boost url index made now joined in
      caught_defined (started >>= run lib boost events) (
        bind-Defined (IsGuarded lib boost order) started (run lib boost events)
          (prepare-Defined url index made now joined)
          (λ c done guarded. run-Defined lib boost order events c (admits c done) guarded))
