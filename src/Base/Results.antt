-- ===== src/Base/Results.antt =====
-- Go's (value, error) pair: a call returns a value or an error of the component's own type.
use mathlib.Core.Path.{◌≡◌, refl}
use mathlib.Core.Bool.{Bool, true, false}
use mathlib.Core.Logic.{◌⊎◌, inl, inr}

pub data Result {ℓ} (E : Type 0) (A : Type ℓ) : Type ℓ where
  ok : A → Result E A
  err : E → Result E A

infixl 5 ◌>>=◌
-- `x, err := f(); if err != nil { return err }`
abbrev pub ◌>>=◌ {ι κ} :
    {E : Type 0} {X : Type ι} {Y : Type κ} → Result E X → (X → Result E Y) → Result E Y
err why >>= _ = err why
ok x >>= next = next x

infixl 5 ◌>>◌
abbrev pub ◌>>◌ {κ} : {E : Type 0} {Y : Type κ} → Result E (Unit {0}) → Result E Y → Result E Y
err why >> _ = err why
ok _ >> next = next

-- `if bad { return why }`
abbrev pub reject_if : {E : Type 0} → Bool → E → Result E (Unit {0})
reject_if false _ = ok tt
reject_if true why = err why

pub >>=-eq-ok {ι κ} :
    {E : Type 0} {X : Type ι} {Y : Type κ} (r : Result E X) (next : X → Result E Y) {y : Y}
    → (r >>= next) ≡ ok y
    → (x : X) × (r ≡ ok x) × (next x ≡ ok y)
>>=-eq-ok (err why) next same = cc
>>=-eq-ok (ok x) next same = (x, refl, same)

pub Result-cases {ℓ} :
    {E : Type 0} {A : Type ℓ} (r : Result E A) → ((a : A) × (r ≡ ok a)) ⊎ ((e : E) × (r ≡ err e))
Result-cases (ok a) = inl (a, refl)
Result-cases (err e) = inr (e, refl)

abbrev pub is_ok {ℓ} : {E : Type 0} {A : Type ℓ} → Result E A → Bool
is_ok (ok _) = true
is_ok (err _) = false
