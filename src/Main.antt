-- ===== src/Main.antt =====
-- main.cc: the check of the command line's flag, and what is done before the event loop runs.
pub mod Ready
pub mod EventLoop
pub mod Running
pub mod Ends
pub mod Answering
pub mod Requesting
pub mod Once
pub mod Guarded
pub mod Returns
pub mod Serving
pub mod Started
pub mod Playing
pub mod Refused
pub mod Discovering
use tv_cast.Prelude.{ℕ, Bool, false, not, List, [], ◌∷◌, ◌==◌, Bytes, Result, ok, ◌>>=◌}
use tv_cast.Http.CParser.{HttpParserLib}
use tv_cast.App.Types.{new_app}
use tv_cast.App.Interfaces.{Boost}
use tv_cast.App.Controller.{play_video}
use tv_cast.Tcp.{Action}
use tv_cast.Com.{Communication, new, register_app_controller, start}

-- `IsNonEmptyMessage`; `value[0]` of an empty string is the null character.
unfoldable pub is_non_empty_message : Bytes → Bool
is_non_empty_message [] = false
is_non_empty_message (c ∷ value) = not (c == 0)

module _ (lib : HttpParserLib) (boost : Boost) where
  -- The body of the `try` up to `io_service.run()`: the static `index` as it is, the times at which
  -- the two commands are made, and whether the multicast group can be joined.
  unfoldable pub prepare : Bytes → ℕ → ℕ → ℕ → Bool → Result (Communication lib boost)
  prepare url index made now joined = do
    let registered = register_app_controller lib boost (new lib boost index (new_app made))
    c ← start lib boost joined registered
    ok (record c { app = play_video url now c.app })
