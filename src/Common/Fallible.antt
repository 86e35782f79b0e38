-- ===== src/Common/Fallible.antt =====
-- Results: a value, or an error of the component's own type.
use mathlib.Core.Path.{◌≡◌, refl}
use mathlib.Core.Logic.{◌⊎◌, inl, inr}
use mathlib.Core.Bool.{Bool, true, false}
use mathlib.Core.Option.{Option, none, some}

pub data Result {ℓ} (E : Type 0) (A : Type ℓ) : Type ℓ where
  err : E → Result E A
  ok : A → Result E A

module _ {E : Type 0} where
  infixl 5 ◌>>=◌ ◌>>◌
  -- The operator `?`: an error ends the function.
  abbrev pub ◌>>=◌ {ℓ κ} : {A : Type ℓ} {B : Type κ} → Result E A → (A → Result E B) → Result E B
  err reason >>= next = err reason
  ok value >>= next = next value

  abbrev pub ◌>>◌ {ℓ} : {B : Type ℓ} → Result E (Unit {0}) → Result E B → Result E B
  err reason >> next = err reason
  ok done >> next = next

  -- `ok_or`
  abbrev pub or_fail {ℓ} : {A : Type ℓ} → Option A → E → Result E A
  or_fail (some value) reason = ok value
  or_fail none reason = err reason

  -- `if bad { return Err(e) }`
  abbrev pub fail_if : Bool → E → Result E (Unit {0})
  fail_if true reason = err reason
  fail_if false reason = ok tt

  pub ok_inj {ℓ} : {A : Type ℓ} {a b : A} → ◌≡◌ {A = Result E A} (ok a) (ok b) → a ≡ b
  ok_inj h = cc h

  pub Result-cases {ℓ} :
      {A : Type ℓ} (r : Result E A)
      → ((reason : E) × (r ≡ err reason)) ⊎ ((value : A) × (r ≡ ok value))
  Result-cases (err reason) = inl (reason, refl)
  Result-cases (ok value) = inr (value, refl)

  -- What a success says of the steps before it.
  pub fail_if_passed {ℓ} :
      {A : Type ℓ} (bad : Bool) (reason : E) (next : Result E A) {value : A}
      → (fail_if bad reason >> next) ≡ ok value
      → (bad ≡ false) × (next ≡ ok value)
  fail_if_passed true reason next h = absurd (cc h)
  fail_if_passed false reason next h = (refl, h)

  pub or_fail_passed {ℓ κ} :
      {A : Type ℓ} {B : Type κ} (found : Option A) (reason : E) (next : A → Result E B) {value : B}
      → (or_fail found reason >>= next) ≡ ok value
      → (a : A) × (found ≡ some a) × (next a ≡ ok value)
  or_fail_passed none reason next h = absurd (cc h)
  or_fail_passed (some a) reason next h = (a, refl, h)

  pub Result-passed {ℓ κ} :
      {A : Type ℓ} {B : Type κ} (r : Result E A) (next : A → Result E B) {value : B}
      → (r >>= next) ≡ ok value
      → (a : A) × (r ≡ ok a) × (next a ≡ ok value)
  Result-passed (err reason) next h = absurd (cc h)
  Result-passed (ok a) next h = (a, refl, h)
