-- ===== src/Common/Results.antt =====
-- A Python call that may raise, with `do`. `E` is the component's type of exceptions.
use mathlib.Core.Path.{◌≡◌, refl}
use mathlib.Core.Logic.{◌⊎◌, inl, inr}
use mathlib.Core.Bool.{Bool, true, false}

pub data Result {ℓ} (E : Type 0) (A : Type ℓ) : Type ℓ where
  raise : E → Result E A
  ok : A → Result E A

module _ {E : Type 0} where
  infixl 5 ◌>>=◌ ◌>>◌
  abbrev pub ◌>>=◌ {κ μ} : {X : Type κ} {Y : Type μ} → Result E X → (X → Result E Y) → Result E Y
  raise exception >>= after = raise exception
  ok x >>= after = after x

  -- `if not test: raise exception`
  abbrev pub guard : Bool → E → Result E (Unit {0})
  guard false exception = raise exception
  guard true exception = ok tt

  abbrev pub ◌>>◌ {μ} : {Y : Type μ} → Result E (Unit {0}) → Result E Y → Result E Y
  first >> second = first >>= λ done. second

  -- Where a call and what follows it return, the call returned.
  pub bind-eq-ok {κ μ} :
      {X : Type κ} {Y : Type μ} (call : Result E X) (after : X → Result E Y) {y : Y}
      → (call >>= after) ≡ ok y
      → (x : X) × (call ≡ ok x) × (after x ≡ ok y)
  bind-eq-ok (raise exception) after returned = cc
  bind-eq-ok (ok x) after returned = (x, refl, returned)

  -- What follows a guard returned, so the guard passed.
  pub after_guard {κ} :
      {Y : Type κ} (test : Bool) (exception : E) (after : Result E Y) {y : Y}
      → (guard test exception >> after) ≡ ok y
      → after ≡ ok y
  after_guard false exception after returned = cc
  after_guard true exception after returned = returned

  pub passed_guard {κ} :
      {Y : Type κ} (test : Bool) (exception : E) (after : Result E Y) {y : Y}
      → (guard test exception >> after) ≡ ok y
      → test ≡ true
  passed_guard false exception after returned = cc
  passed_guard true exception after returned = refl

  -- The same for a chain of calls: what follows is proved of any value that the call may return.
  pub after_call {κ μ ν} :
      {X : Type κ} {Y : Type μ} {C : Type ν} (call : Result E X) (after : X → Result E Y) {y : Y}
      → (call >>= after) ≡ ok y
      → ((x : X) → call ≡ ok x → after x ≡ ok y → C)
      → C
  after_call {Y = Y} (raise exception) after returned proof = absurd (refused returned)
    where
      refused : {z : Y} → (raise exception >>= after) ≡ ok z → ⊥
      refused h = cc
  after_call (ok x) after returned proof = proof x refl returned

  pub after_test {κ ν} :
      {Y : Type κ} {C : Type ν} (test : Bool) (exception : E) (after : Result E Y) {y : Y}
      → (guard test exception >> after) ≡ ok y
      → (test ≡ true → after ≡ ok y → C)
      → C
  after_test {Y = Y} false exception after returned proof = absurd (refused returned)
    where
      refused : {z : Y} → (guard false exception >> after) ≡ ok z → ⊥
      refused h = cc
  after_test true exception after returned proof = proof refl returned

  abbrev pub returned_value {κ} : {Y : Type κ} → Y → Result E Y
  returned_value value = ok value

  pub ok_injective {κ} : {Y : Type κ} {x y : Y} → returned_value x ≡ returned_value y → x ≡ y
  ok_injective same = cc

  -- To split on the outcome of a call and keep the equation.
  pub Result-cases {κ} :
      {X : Type κ} (call : Result E X)
      → ((x : X) × (call ≡ ok x)) ⊎ ((exception : E) × (call ≡ raise exception))
  Result-cases (raise exception) = inr (exception, refl)
  Result-cases (ok x) = inl (x, refl)
