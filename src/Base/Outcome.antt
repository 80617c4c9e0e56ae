-- ===== src/Base/Outcome.antt =====
-- How a kernel function ends: it returns, it calls `panic`, or it makes an access that C leaves
-- undefined (a NULL dereference, an index past the end of an array, an uninitialised read).
use mathlib.Core.Logic.{◌⊎◌, inl, inr}
use mathlib.Core.Path.{◌≡◌, refl, ap}
use sentry_kernel.KTypes.{PanicEvent, Kstatus}

pub data Run {ℓ} (A : Type ℓ) : Type ℓ where
  ret : A → Run A
  panic : PanicEvent → Run A
  fault : Run A

infixl 5 ◌>>=◌
abbrev pub ◌>>=◌ {ℓ κ} : {A : Type ℓ} {B : Type κ} → Run A → (A → Run B) → Run B
ret a >>= f = f a
panic e >>= f = panic e
fault >>= f = fault

-- A step that returns hands its value on.
pub >>=-ret {ℓ κ} :
    {A : Type ℓ} {B : Type κ} {m : Run A} (f : A → Run B) {a : A} → m ≡ ret a → (m >>= f) ≡ f a
>>=-ret f h = ap (λ m. m >>= f) h

-- Inversion of a run that returns.
pub >>=-eq-ret {ℓ κ} :
    {A : Type ℓ} {B : Type κ} (m : Run A) (f : A → Run B) {b : B}
    → (m >>= f) ≡ ret b
    → (a : A) × (m ≡ ret a) × (f a ≡ ret b)
>>=-eq-ret (ret a) f h = (a, refl, h)
>>=-eq-ret (panic e) f h = cc
>>=-eq-ret fault f h = cc

-- A status with the value of an out parameter, which C leaves unset on failure.
pub data Result {ℓ} (A : Type ℓ) : Type ℓ where
  success : A → Result A
  failure : Kstatus → Result A

pub Result-cases {ℓ} :
    {A : Type ℓ} (r : Result A) → ((e : Kstatus) × (r ≡ failure e)) ⊎ ((a : A) × (r ≡ success a))
Result-cases (failure e) = inl (e, refl)
Result-cases (success a) = inr (a, refl)
