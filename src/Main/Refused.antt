-- ===== src/Main/Refused.antt =====
-- The first accept fails.
use tv_cast.Prelude.{ℕ, ◌≡◌, ap, true, List, [], ◌∷◌, none, ok, ◌>>=◌, Bytes}
use tv_cast.Http.CParser.{HttpParserLib}
use tv_cast.App.Interfaces.{Boost}
use tv_cast.Tcp.{
  close_session_socket, is_open, handle_accept, complete_operation, picked, pick, complete,
}
use tv_cast.Main.EventLoop.{Event, returned, running, at_server, handle_event, run, caught, main}
use tv_cast.Main.Started.{prepare-started}

module _ (lib : HttpParserLib) (boost : Boost) where
  -- When the first accept fails, the program has returned 0, whatever else completes behind it, where
  -- without that failure it waits, if the multicast group can be joined: `Close` throws, since the
  -- session's socket was never opened, and that ends the event loop.
  pub main-refused :
      (url : Bytes) (index made now : ℕ) (events : List (Event boost))
      → (main lib boost url index made now true (at_server 0 none ∷ events) ≡ ok (returned 0))
        × (main lib boost url index made now true [] ≡ ok running)
  unfolding main run handle_event complete pick picked complete_operation handle_accept
      close_session_socket is_open
  main-refused url index made now events =
      let started = prepare-started lib boost url index made now in
      (
        ap (λ r. caught lib boost (r >>= run lib boost (at_server 0 none ∷ events))) started,
        ap (λ r. caught lib boost (r >>= run lib boost [])) started,
      )
