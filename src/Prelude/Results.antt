-- ===== src/Prelude/Results.antt =====
-- Go's pair of a value and an error: a value, or an error of the type `E`.
use mathlib.Core.Path.{◌≡◌, refl}
use mathlib.Core.Logic.{◌⊎◌, inl, inr}

pub data Result (E A : Type 0) : Type 0 where
  ok : A → Result E A
  err : E → Result E A

pub Result-cases :
    {E A : Type 0} (r : Result E A) → ((a : A) × (r ≡ ok a)) ⊎ ((e : E) × (r ≡ err e))
Result-cases (ok a) = inl (a, refl)
Result-cases (err e) = inr (e, refl)

pub ok-injective : {E A : Type 0} {a b : A} → ◌≡◌ {A = Result E A} (ok a) (ok b) → a ≡ b
ok-injective e = cc

pub err-injective : {E A : Type 0} {a b : E} → ◌≡◌ {A = Result E A} (err a) (err b) → a ≡ b
err-injective e = cc

infixl 5 ◌>>=◌
abbrev pub ◌>>=◌ : {E A B : Type 0} → Result E A → (A → Result E B) → Result E B
err failure >>= continue = err failure
ok value >>= continue = continue value

-- A chain that succeeds has a first step that succeeds.
pub >>=-eq-ok :
    {E A B : Type 0} (first : Result E A) (continue : A → Result E B) {result : B}
    → (first >>= continue) ≡ ok result
    → (value : A) × (first ≡ ok value) × (continue value ≡ ok result)
>>=-eq-ok (err failure) continue chain = cc
>>=-eq-ok (ok value) continue chain = (value, refl, chain)

infixl 5 ◌>>◌
abbrev pub ◌>>◌ : {E B : Type 0} → Result E (Unit {0}) → Result E B → Result E B
check >> next = check >>= λ _. next
