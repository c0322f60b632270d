-- ===== src/Prelude/Outcome.antt =====
-- The outcome of an atomic service call: the exception that rolls it back, or a value.
use mathlib.Core.Bool.{Bool, true, false}
use mathlib.Core.Option.{Option, none, some}
use mathlib.Core.Path.{◌≡◌, refl}

pub data Result {κ ℓ} (E : Type κ) (A : Type ℓ) : Type (κ ⊔ ℓ) where
  err : (exception : E) → Result E A
  ok : (value : A) → Result E A

module _ {κ ℓ} {E : Type κ} {A : Type ℓ} where
  -- The statement after a call runs when the call has returned.
  infixl 5 ◌>>=◌
  abbrev pub ◌>>=◌ {μ} : {B : Type μ} → Result E A → (A → Result E B) → Result E B
  (err exception) >>= next = err exception
  (ok value) >>= next = next value

  -- `row = ...; if row is None: raise exception`
  abbrev pub or_raise : Option A → E → Result E A
  or_raise (some value) exception = ok value
  or_raise none exception = err exception

  -- A sequence that returns has a first call that returns.
  pub >>=-eq-ok {μ} :
      {B : Type μ} (call : Result E A) (next : A → Result E B) {last : B}
      → call >>= next ≡ ok last
      → (value : A) × (call ≡ ok value) × (next value ≡ ok last)
  >>=-eq-ok (err exception) next returned = cc
  >>=-eq-ok (ok value) next returned = (value, refl, returned)

  pub ok-injective : {x y : A} → ◌≡◌ {A = Result E A} (ok x) (ok y) → x ≡ y
  ok-injective same = cc

module _ {κ} {E : Type κ} where
  -- `if condition: raise exception`
  abbrev pub raise_if : Bool → E → Result E (Unit {0})
  raise_if false exception = ok tt
  raise_if true exception = err exception

  -- `if not condition: raise exception`
  abbrev pub require : Bool → E → Result E (Unit {0})
  require false exception = err exception
  require true exception = ok tt

  infixl 5 ◌>>◌
  abbrev pub ◌>>◌ {ℓ} : {A : Type ℓ} → Result E (Unit {0}) → Result E A → Result E A
  check >> rest = check >>= λ passed. rest
