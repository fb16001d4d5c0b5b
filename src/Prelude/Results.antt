-- ===== src/Prelude/Results.antt =====
-- Results with an error value: a function that throws returns `err` with what it throws.
use mathlib.Core.Path.{◌≡◌, refl}
use mathlib.Core.Logic.{◌⊎◌, inl, inr}

pub data Result {e ℓ} (Failure : Type e) (Answer : Type ℓ) : Type (e ⊔ ℓ) where
  err : Failure → Result Failure Answer
  ok : Answer → Result Failure Answer

module _ {e ℓ} {Failure : Type e} {Answer : Type ℓ} where
  pub ok-injective : {x y : Answer} → ◌≡◌ {A = Result Failure Answer} (ok x) (ok y) → x ≡ y
  ok-injective same = cc

  pub Result-cases :
      (outcome : Result Failure Answer)
      → ((answer : Answer) × (outcome ≡ ok answer))
        ⊎ ((failure : Failure) × (outcome ≡ err failure))
  Result-cases (err failure) = inr (failure, refl)
  Result-cases (ok answer) = inl (answer, refl)

-- What follows runs on the answer alone; a failure is passed on.
infixl 5 ◌>>=◌
abbrev pub ◌>>=◌ {e ℓ κ} :
    {Failure : Type e} {First : Type ℓ} {Second : Type κ}
    → Result Failure First
    → (First → Result Failure Second)
    → Result Failure Second
err failure >>= then_do = err failure
ok answer >>= then_do = then_do answer

-- A step that is taken for its failure alone.
infixl 5 ◌>>◌
abbrev pub ◌>>◌ {e ℓ} :
    {Failure : Type e} {Answer : Type ℓ}
    → Result Failure (Unit {0})
    → Result Failure Answer
    → Result Failure Answer
check >> rest = check >>= λ done. rest

-- A chain that answers had an answer at its first step.
pub >>=-eq-ok {e ℓ κ} :
    {Failure : Type e} {First : Type ℓ} {Second : Type κ} (first : Result Failure First)
    (then_do : First → Result Failure Second) {last : Second} (runs : (first >>= then_do) ≡ ok last)
    → (answer : First) × (first ≡ ok answer) × (then_do answer ≡ ok last)
>>=-eq-ok (err failure) then_do runs = absurd cc
>>=-eq-ok (ok answer) then_do runs = (answer, refl, runs)
