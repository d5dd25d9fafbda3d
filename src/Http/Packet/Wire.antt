-- ===== src/Http/Packet/Wire.antt =====
-- The bytes that `Serialize` writes, and a reader that takes them apart again.
use tv_cast.Prelude.{
  ℕ, ◌+◌, ◌<◌, ◌%◌, ◌^◌, [], ◌∷◌, ◌++◌, ◌≡◌, ◌≢◌, refl, sym, arith, append_assoc, append-nil,
  Option, none, some, length, replicate, length-append, memcpy_at-append, Bytes, ok, ◌>>=◌,
}
use tv_cast.Http.Packet.{copy_to, assemble, body_size}

abbrev pub body_bytes : Option Bytes → Bytes
body_bytes none = []
body_bytes (some b) = b

copy_to-append :
    (xs src : Bytes) (i m k : ℕ)
    → i ≡ length xs
    → length src + k ≡ m
    → 0 < length src
    → copy_to src i (xs ++ replicate m 0) ≡ ok (xs ++ (src ++ replicate k 0))
unfolding copy_to
copy_to-append xs src i m k h e n = ground (arith, memcpy_at-append xs src i m k h e n)

module _ (s h : Bytes) (n : ℕ) (ns : 0 < length s) (nh : 0 < length h) where
  -- The first two copies, into a buffer with `n` bytes left for the body.
  two_copies :
      (copy_to s 0 (replicate (length s + length h + n) 0) >>= copy_to h (length s))
      ≡ ok (s ++ (h ++ replicate n 0))
  two_copies =
      rw (copy_to-append [] s 0 (length s + length h + n) (length h + n) refl (omega arith) ns)
        (copy_to-append s h (length s) (length h + n) n refl refl nh)

-- Where the start line and the headers are not empty, the body is absent or not empty, and all
-- fit in 2 ^ 32 - 1 bytes, the three copies fill the buffer exactly: nothing is left blank, and
-- nothing is written outside.
pub assemble-append :
    (start headers : Bytes) (body : Option Bytes)
    → 0 < length start
    → 0 < length headers
    → body ≢ some []
    → length start + length headers + body_size body < 2 ^ 32
    → assemble start headers body ≡ ok (start ++ (headers ++ body_bytes body))
unfolding assemble
assemble-append s h none ns nh nb fits =
    let size : (length s + length h + 0) % 2 ^ 32 ≡ length s + length h + 0 = omega arith in
    rw (size) (ground (arith, two_copies s h 0 ns nh))
assemble-append s h (some []) ns nh nb fits = absurd (nb refl)
assemble-append s h (some (c ∷ cs)) ns nh nb fits =
    let n = length (c ∷ cs) in
    let size : (length s + length h + n) % 2 ^ 32 ≡ length s + length h + n = omega arith in
    let last =
      copy_to-append (s ++ h) (c ∷ cs) (length s + length h) n 0 (sym (length-append s h))
        (omega arith) (omega arith) in
    rw size (
      ground (
        arith,
        two_copies s h n ns nh,
        last,
        append_assoc s h (replicate n 0),
        append-nil (c ∷ cs),
        append_assoc s h (c ∷ cs),
      ))
