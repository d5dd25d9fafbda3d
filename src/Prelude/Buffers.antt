-- ===== src/Prelude/Buffers.antt =====
-- `memcpy(&buffer->at(i), src, src.size())` into a `std::vector`.
use Prim.Native.Nat.{ℕ, ◌+◌, ◌≤◌, ◌<◌}
use mathlib.Core.Path.{◌≡◌}
use mathlib.Core.List.{◌++◌}
use native.Mathlib.Omega.{arith}
use mathlib.Core.Logic.{◌⊎◌, inl, inr}
use tv_cast.Prelude.Tests.{ltb, leb, Bool-cases, if◌then◌else◌}
use tv_cast.Prelude.Lists.{
  length, overwrite, replicate, length-append, length-replicate, overwrite-append, take, drop,
  length-take, length-drop,
}
use tv_cast.Prelude.Strings.{Bytes}
use tv_cast.Prelude.Results.{Result, ok, err, out_of_range, undefined_behaviour}

-- `at(i)` throws where there is no element `i`; a write past the end is not defined.
unfoldable pub memcpy_at : Bytes → ℕ → Bytes → Result Bytes
memcpy_at buffer i src =
    if ltb i (length buffer)
    then if leb (i + length src) (length buffer)
      then ok (overwrite buffer i src)
      else err undefined_behaviour
    else err out_of_range

-- A write into a part of a buffer that is still blank.
pub memcpy_at-append :
    (xs src : Bytes) (i m k : ℕ)
    → i ≡ length xs
    → length src + k ≡ m
    → 0 < length src
    → memcpy_at (xs ++ replicate m 0) i src ≡ ok (xs ++ (src ++ replicate k 0))
unfolding memcpy_at
memcpy_at-append xs src i m k h e n = ground (
  arith,
  length-append xs (replicate m 0),
  length-replicate {A = ℕ} m 0,
  overwrite-append xs src 0 i m k h e,
)

length-overwrite :
    (buffer src : Bytes) (i : ℕ)
    → i + length src ≤ length buffer
    → length (overwrite buffer i src) ≡ length buffer
length-overwrite buffer src i h = omega (
  arith,
  length-append (take i buffer) (src ++ drop (i + length src) buffer),
  length-append src (drop (i + length src) buffer),
  length-take i buffer (omega arith),
  length-drop (i + length src) buffer,
)

-- If the write fits, or begins outside: it throws, or leaves a buffer of the same length.
pub memcpy_at-cases :
    (buffer : Bytes) (i : ℕ) (src : Bytes)
    → (i < length buffer → i + length src ≤ length buffer)
    → (memcpy_at buffer i src ≡ err out_of_range)
      ⊎ ((b : Bytes) × (memcpy_at buffer i src ≡ ok b) × (length b ≡ length buffer))
unfolding memcpy_at
memcpy_at-cases buffer i src fits = elim (Bool-cases (ltb i (length buffer))) [
  | inl inside ↦
      let room : i + length src ≤ length buffer = fits (ground arith) in
      inr (overwrite buffer i src, ground arith, length-overwrite buffer src i room)
  | inr outside ↦ inl (rw outside)
]
