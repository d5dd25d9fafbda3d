-- ===== src/Prelude/Int.antt =====
-- C's `int` where the program compares it, stores it in an enum, or prints it.
use Prim.Native.Nat.{ℕ, ◌+◌}
use mathlib.Core.Path.{◌≡◌}
use mathlib.Core.Logic.{◌↔◌}
use mathlib.Core.Bool.{Bool, true, false}
use mathlib.Core.List.{◌∷◌}
use native.Mathlib.Omega.{arith}
use tv_cast.Prelude.Tests.{◌==◌}
use tv_cast.Prelude.Strings.{Bytes, to_string}

-- `negsuc n` is -(n + 1).
pub data ℤ : Type 0 where
  pos : ℕ → ℤ
  negsuc : ℕ → ℤ

abbrev pub eq_int : ℤ → ℤ → Bool
eq_int (pos a) (pos b) = a == b
eq_int (pos a) (negsuc b) = false
eq_int (negsuc a) (pos b) = false
eq_int (negsuc a) (negsuc b) = a == b

pub eq_int_iff : (a b : ℤ) → (eq_int a b ≡ true) ↔ (a ≡ b)
eq_int_iff (pos a) (pos b) = ground arith
eq_int_iff (pos a) (negsuc b) = ground arith
eq_int_iff (negsuc a) (pos b) = ground arith
eq_int_iff (negsuc a) (negsuc b) = ground arith

-- `std::to_string(int)`
unfoldable pub int_string : ℤ → Bytes
unfolding to_string
int_string (pos n) = to_string n
int_string (negsuc n) = b'-' ∷ to_string (n + 1)
