-- ===== src/Prelude/Results.antt =====
-- What a call may end in. An exception leaves `main`'s event loop, a failed `CHECK` aborts, and a
-- write or a read outside an object has no defined behaviour, nor has a call on a freed object.
use mathlib.Core.Path.{◌≡◌, refl}
use mathlib.Core.Logic.{◌≢◌}
use mathlib.Core.Bool.{Bool, true, false}
use tv_cast.Prelude.Tests.{if◌then◌else◌}

pub data Exception : Type 0 where
  out_of_range : Exception
  system_error : Exception
  json_parser_error : Exception
  check_failed : Exception
  use_after_free : Exception
  undefined_behaviour : Exception

pub data Result {ℓ} (A : Type ℓ) : Type ℓ where
  err : Exception → Result A
  ok : A → Result A

infixl 5 ◌>>=◌
abbrev pub ◌>>=◌ {ℓ κ} : {A : Type ℓ} {B : Type κ} → Result A → (A → Result B) → Result B
err thrown >>= next = err thrown
ok value >>= next = next value

-- A sequence that returns has a first step that returned.
pub >>=-eq-ok {ℓ κ} :
    {A : Type ℓ} {B : Type κ} (first : Result A) (next : A → Result B) {b : B}
    → (first >>= next) ≡ ok b
    → (a : A) × (first ≡ ok a) × (next a ≡ ok b)
>>=-eq-ok (err thrown) next h = cc
>>=-eq-ok (ok value) next h = (value, refl, h)

-- Neither the failure of a check nor a use of freed memory.
abbrev pub IsExpected : Exception → Type 0
IsExpected e = (e ≢ check_failed) × (e ≢ use_after_free)

-- A call that returns, or throws an exception of the program's own.
abbrev pub Behaves : {B : Type 0} → Result B → Type 0
Behaves (ok b) = Unit {0}
Behaves (err e) = IsExpected e

pub bind-Behaves :
    {B C : Type 0} (m : Result B) (f : B → Result C)
    → Behaves m
    → ((b : B) → Behaves (f b))
    → Behaves (m >>= f)
bind-Behaves (ok b) f behaves h = h b
bind-Behaves (err e) f behaves h = behaves

pub if-Behaves :
    {B : Type 0} (b : Bool) (first second : Result B)
    → Behaves first
    → Behaves second
    → Behaves (if b then first else second)
if-Behaves true first second h k = h
if-Behaves false first second h k = k

-- A call that returns, or throws `std::out_of_range`.
abbrev pub ThrowsRange : {B : Type 0} → Result B → Type 0
ThrowsRange (ok b) = Unit {0}
ThrowsRange (err e) = e ≡ out_of_range

pub bind-ThrowsRange :
    {B C : Type 0} (m : Result B) (f : B → Result C)
    → ThrowsRange m
    → ((b : B) → ThrowsRange (f b))
    → ThrowsRange (m >>= f)
bind-ThrowsRange (ok b) f thrown h = h b
bind-ThrowsRange (err e) f thrown h = thrown

pub if-ThrowsRange :
    {B : Type 0} (b : Bool) (first second : Result B)
    → ThrowsRange first
    → ThrowsRange second
    → ThrowsRange (if b then first else second)
if-ThrowsRange true first second h k = h
if-ThrowsRange false first second h k = k

pub ThrowsRange-Behaves : {B : Type 0} (m : Result B) → ThrowsRange m → Behaves m
ThrowsRange-Behaves (ok b) thrown = tt
ThrowsRange-Behaves (err e) thrown = ((λ f. cc), (λ f. cc))

-- A call whose behaviour is defined, with what holds of the value that it returns.
abbrev pub Defined {ℓ} : {B : Type ℓ} → (B → Type 0) → Result B → Type 0
Defined Good (ok b) = Good b
Defined Good (err e) = e ≢ undefined_behaviour

pub bind-Defined {ℓ κ} :
    {B : Type ℓ} {C : Type κ} {Good : B → Type 0} (Next : C → Type 0) (m : Result B)
    (f : B → Result C)
    → Defined Good m
    → ((b : B) → m ≡ ok b → Good b → Defined Next (f b))
    → Defined Next (m >>= f)
bind-Defined Next (ok b) f good next = next b refl good
bind-Defined Next (err e) f defined next = defined

pub if-Defined {ℓ} :
    {B : Type ℓ} (Good : B → Type 0) (b : Bool) (first second : Result B)
    → Defined Good first
    → Defined Good second
    → Defined Good (if b then first else second)
if-Defined Good true first second h k = h
if-Defined Good false first second h k = k

pub ThrowsRange-Defined :
    {B : Type 0} (Good : B → Type 0) (m : Result B)
    → ThrowsRange m
    → ((b : B) → Good b)
    → Defined Good m
ThrowsRange-Defined Good (ok b) thrown good = good b
ThrowsRange-Defined Good (err e) thrown good = λ f. cc
