-- ===== src/Prelude/Lists.antt =====
-- Lists measured by the native numbers; `slice b e` is what two iterators into a string delimit.
use Prim.Native.Nat.{ℕ, zero, suc, ◌+◌, ◌-◌, ◌≤◌}
use mathlib.Core.Path.{◌≡◌, refl, ap}
use mathlib.Core.List.{List, [], ◌∷◌, ◌++◌}
use native.Mathlib.Omega.{arith}

module _ {ℓ} {A : Type ℓ} where
  abbrev pub length : List A → ℕ
  length [] = 0
  length (x ∷ xs) = suc (length xs)

  abbrev pub take : ℕ → List A → List A
  take zero xs = []
  take (suc n) [] = []
  take (suc n) (x ∷ xs) = x ∷ take n xs

  abbrev pub drop : ℕ → List A → List A
  drop zero xs = xs
  drop (suc n) [] = []
  drop (suc n) (x ∷ xs) = drop n xs

  abbrev pub replicate : ℕ → A → List A
  replicate zero a = []
  replicate (suc n) a = a ∷ replicate n a

  abbrev pub slice : ℕ → ℕ → List A → List A
  slice b e xs = take (e - b) (drop b xs)

  -- `memcpy(&xs->at(i), ys, ys.size())`, where the write fits.
  abbrev pub overwrite : List A → ℕ → List A → List A
  overwrite xs i ys = take i xs ++ (ys ++ drop (i + length ys) xs)

  pub length-append : (xs ys : List A) → length (xs ++ ys) ≡ length xs + length ys
  length-append [] ys = omega arith
  length-append (x ∷ xs) ys = omega (arith, length-append xs ys)

  pub length-replicate : (n : ℕ) (a : A) → length (replicate n a) ≡ n
  length-replicate zero a = refl
  length-replicate (suc n) a = ap suc (length-replicate n a)

  pub take-append : (xs ys : List A) (n : ℕ) → n ≡ length xs → take n (xs ++ ys) ≡ xs
  take-append [] ys zero h = refl
  take-append [] ys (suc n) h = absurd (omega arith)
  take-append (x ∷ xs) ys zero h = absurd (omega arith)
  take-append (x ∷ xs) ys (suc n) h = ap (◌∷◌ x) (take-append xs ys n (omega arith))

  pub drop-append : (xs ys : List A) (n : ℕ) → n ≡ length xs → drop n (xs ++ ys) ≡ ys
  drop-append [] ys zero h = refl
  drop-append [] ys (suc n) h = absurd (omega arith)
  drop-append (x ∷ xs) ys zero h = absurd (omega arith)
  drop-append (x ∷ xs) ys (suc n) h = drop-append xs ys n (omega arith)

  pub drop-replicate : (m n k : ℕ) (a : A) → m + k ≡ n → drop m (replicate n a) ≡ replicate k a
  drop-replicate zero n k a h = ap (λ j. replicate j a) (omega arith)
  drop-replicate (suc m) zero k a h = absurd (omega arith)
  drop-replicate (suc m) (suc n) k a h = drop-replicate m n k a (omega arith)

  pub slice-append :
      (str xs ys zs : List A) (b e : ℕ)
      → str ≡ xs ++ (ys ++ zs)
      → b ≡ length xs
      → e ≡ b + length ys
      → slice b e str ≡ ys
  slice-append str xs ys zs b e hs hb he =
      rw (hs, drop-append xs (ys ++ zs) b hb) (take-append ys zs (e - b) (omega arith))

  pub length-take : (n : ℕ) (xs : List A) → n ≤ length xs → length (take n xs) ≡ n
  length-take zero xs h = refl
  length-take (suc n) [] h = absurd (omega arith)
  length-take (suc n) (x ∷ xs) h = ap suc (length-take n xs (omega arith))

  pub length-drop : (n : ℕ) (xs : List A) → length (drop n xs) ≡ length xs - n
  length-drop zero xs = omega arith
  length-drop (suc n) [] = omega arith
  length-drop (suc n) (x ∷ xs) = omega (arith, length-drop n xs)

  pub drop-length-append :
      (xs ys : List A) (n m : ℕ) → m ≡ length xs + n → drop m (xs ++ ys) ≡ drop n ys
  drop-length-append [] ys n m h = ap (λ j. drop j ys) (omega arith)
  drop-length-append (x ∷ xs) ys n zero h = absurd (omega arith)
  drop-length-append (x ∷ xs) ys n (suc m) h = drop-length-append xs ys n m (omega arith)

  -- A write into the part of a buffer that is still blank.
  pub overwrite-append :
      (xs ys : List A) (a : A) (i m k : ℕ)
      → i ≡ length xs
      → length ys + k ≡ m
      → overwrite (xs ++ replicate m a) i ys ≡ xs ++ (ys ++ replicate k a)
  overwrite-append xs ys a i m k h e = rw (
    take-append xs (replicate m a) i h,
    drop-length-append xs (replicate m a) (length ys) (i + length ys) (omega arith),
    drop-replicate (length ys) m k a e,
  )
