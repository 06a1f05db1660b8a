-- ===== src/Common/Errors.antt =====
-- app/core/exceptions.py: the exception classes, without their messages.
use mathlib.Core.Path.{◌≡◌, refl}
use mathlib.Core.Logic.{◌⊎◌, inl, inr}
use mathlib.Core.Option.{Option, none, some}
use mathlib.Core.Bool.{Bool, true, false}
use onboard_ai.Common.Tests.{if◌then◌else◌}

pub data Error : Type 0 where
  not_found conflict validation forbidden unauthorized service_unavailable runtime : Error

-- What a call that may raise gives back.
pub data Result {ℓ} (A : Type ℓ) : Type ℓ where
  ok : A → Result A
  err : Error → Result A

pub Result-cases {ℓ} :
    {A : Type ℓ} (r : Result A) → ((e : Error) × (r ≡ err e)) ⊎ ((a : A) × (r ≡ ok a))
Result-cases (ok a) = inr (a, refl)
Result-cases (err e) = inl (e, refl)

-- `if not test: raise`
abbrev pub require : Bool → Error → Result (Unit {0})
require test e = if test then ok tt else err e

module _ {ℓ κ} {A : Type ℓ} {B : Type κ} where
  -- What follows a call that did not raise.
  infixl 5 ◌>>=◌
  abbrev pub ◌>>=◌ : Result A → (A → Result B) → Result B
  err raised >>= following = err raised
  ok got >>= following = following got

  -- A chain that gives a result has given one at each step.
  pub >>=-ok :
      (call : Result A) (following : A → Result B) {last : B}
      → (call >>= following) ≡ ok last
      → (got : A) × (call ≡ ok got) × (following got ≡ ok last)
  >>=-ok (err raised) following h = cc
  >>=-ok (ok got) following h = (got, refl, h)

module _ {κ} {B : Type κ} where
  -- A check before the rest.
  infixl 5 ◌>>◌
  abbrev pub ◌>>◌ : Result (Unit {0}) → Result B → Result B
  check >> others = check >>= λ passed. others

  pub require-ok :
      (test : Bool) (e : Error) (others : Result B) {last : B}
      → (require test e >> others) ≡ ok last
      → (test ≡ true) × (others ≡ ok last)
  require-ok false e others h = cc
  require-ok true e others h = (refl, h)

-- `if value is None: raise`
abbrev pub given {ℓ} : {A : Type ℓ} → Error → Option A → Result A
given e none = err e
given e (some a) = ok a

pub given-ok {ℓ κ} :
    {A : Type ℓ} {B : Type κ} (e : Error) (o : Option A) (f : A → Result B) {b : B}
    → (given e o >>= f) ≡ ok b
    → (a : A) × (o ≡ some a) × (f a ≡ ok b)
given-ok e none f h = cc
given-ok e (some a) f h = (a, refl, h)

pub ok-injective {ℓ} : {A : Type ℓ} {a b : A} → ok a ≡ ok b → a ≡ b
ok-injective h = cc
