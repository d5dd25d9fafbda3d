-- ===== src/Prelude.antt =====
-- The names that the other modules share: the libraries', passed on, and those of the children.
mod Tests
mod Lists
mod Strings
mod Results
mod Maps
mod Order
mod Int
mod Buffers
pub use Tests.*
pub use Lists.*
unfoldable pub use Strings.{bytes_eq, bytes_lt, to_string}
pub use Strings.*
pub use Results.*
unfoldable pub use Maps.{lookup, insert, erase, at}
pub use Maps.*
pub use Order.*
unfoldable pub use Int.{int_string}
pub use Int.*
unfoldable pub use Buffers.{memcpy_at}
pub use Buffers.*
pub use Prim.Native.String.{String}
pub use Prim.Native.Nat.{ℕ, zero, suc, ◌+◌, ◌-◌, ◌*◌, ◌/◌, ◌%◌, ◌^◌, ◌≤◌, ◌<◌}
pub use mathlib.Core.Path.{◌≡◌, refl, sym, ap, ◌∙◌}
pub use mathlib.Core.Logic.{◌≢◌, ◌↔◌, ◌⊎◌, inl, inr}
pub use mathlib.Core.Bool.{Bool, true, false, not, ◌&&◌, ◌||◌}
pub use mathlib.Core.Option.{Option, none, some}
pub use mathlib.Core.List.{List, [], ◌∷◌, ◌++◌, append_assoc, append-nil}
pub use native.Mathlib.Omega.{arith}
