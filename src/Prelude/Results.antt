-- ===== src/Prelude/Results.antt =====
-- Code that throws: a value, or the error that was thrown.
use mathlib.Core.Path.{◌≡◌, refl}
use mathlib.Core.Logic.{◌⊎◌, inl, inr}
use mathlib.Core.Bool.{Bool, true, false}

pub data Result {ℓ κ} (E : Type κ) (A : Type ℓ) : Type (ℓ ⊔ κ) where
  ok : A → Result E A
  err : E → Result E A

infixl 5 ◌>>=◌ ◌>>◌
-- A step and what comes after it, which a throw leaves out.
abbrev pub ◌>>=◌ {μ α β} :
    {Thrown : Type μ} {Before : Type α} {After : Type β}
    → Result Thrown Before
    → (Before → Result Thrown After)
    → Result Thrown After
err e >>= after = err e
ok x >>= after = after x

abbrev pub ◌>>◌ {μ β} :
    {Thrown : Type μ} {After : Type β}
    → Result Thrown (Unit {0})
    → Result Thrown After
    → Result Thrown After
check >> after = check >>= (λ _. after)

-- `if (test) throw e`.
abbrev pub throw_if {μ} : {E : Type μ} → Bool → E → Result E (Unit {0})
throw_if false e = ok tt
throw_if true e = err e

-- Inversion of a successful bind.
pub >>=-eq-ok {μ α β} :
    {Thrown : Type μ} {Before : Type α} {After : Type β} (r : Result Thrown Before)
    (after : Before → Result Thrown After) {y : After}
    → (r >>= after) ≡ ok y
    → (x : Before) × (r ≡ ok x) × (after x ≡ ok y)
>>=-eq-ok (err e) after h = cc
>>=-eq-ok (ok x) after h = (x, refl, h)

pub Result-cases {ℓ μ} :
    {E : Type μ} {A : Type ℓ} (r : Result E A) → ((a : A) × (r ≡ ok a)) ⊎ ((e : E) × (r ≡ err e))
Result-cases (ok a) = inl (a, refl)
Result-cases (err e) = inr (e, refl)

-- How a loop on fuel can stop short: by a throw of the program, or for want of fuel.
pub data Stop {κ} (E : Type κ) : Type κ where
  thrown : E → Stop E
  out_of_fuel : Stop E

pub ok-injective {ℓ μ} :
    {E : Type μ} {A : Type ℓ} {a b : A} (r : Result E A) → r ≡ ok a → r ≡ ok b → a ≡ b
ok-injective r e e' = cc
