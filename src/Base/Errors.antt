-- ===== src/Base/Errors.antt =====
-- C++ exceptions and undefined behaviour as values: a computation that throws, reads or writes outside
-- its memory, or follows a null pointer gives a failure; `endless` is a loop that does not come to its
-- end in the steps that it is given, and `assertion` an assert that ends the program.
use mathlib.Core.Path.{◌≡◌, refl}
use mathlib.Core.Logic.{◌⊎◌, inl, inr}
use mathlib.Core.Bool.{Bool, true, false}

pub data Failure : Type 0 where
  logic_error runtime_error out_of_range length_error undefined endless assertion : Failure

pub data Result {ℓ} (A : Type ℓ) : Type ℓ where
  ok : A → Result A
  err : Failure → Result A

-- `if (!b) throw e;`
abbrev pub require : Bool → Failure → Result (Unit {0})
require true e = ok tt
require false e = err e

infixl 5 ◌>>=◌
abbrev pub ◌>>=◌ {ℓ κ} : {A : Type ℓ} {B : Type κ} → Result A → (A → Result B) → Result B
ok value >>= next = next value
err thrown >>= next = err thrown

infixl 5 ◌>>◌
abbrev pub ◌>>◌ {ℓ} : {A : Type ℓ} → Result (Unit {0}) → Result A → Result A
ok tt >> next = next
err thrown >> next = err thrown

-- The result that the caller sees, looked at through `f`.
abbrev pub map_ok {ℓ κ} : {A : Type ℓ} {B : Type κ} → (A → B) → Result A → Result B
map_ok f (ok a) = ok (f a)
map_ok f (err e) = err e

pub Result-cases {ℓ} :
    {A : Type ℓ} (r : Result A) → ((e : Failure) × (r ≡ err e)) ⊎ ((a : A) × (r ≡ ok a))
Result-cases (ok a) = inr (a, refl)
Result-cases (err e) = inl (e, refl)

-- What holds of the value, if there is one.
abbrev pub OnOk {ℓ} : {A : Type ℓ} → (A → Type 0) → Result A → Type 0
OnOk P (ok a) = P a
OnOk P (err e) = Unit

-- The rule for a computation that goes on with the value of another.
pub OnOk-bind {ℓ κ} :
    {A : Type ℓ} {B : Type κ} (Q : A → Type 0) (P : B → Type 0) (m : Result A) (f : A → Result B)
    → OnOk Q m
    → ((a : A) → Q a → OnOk P (f a))
    → OnOk P (m >>= f)
OnOk-bind Q P (ok a) f q h = h a q
OnOk-bind Q P (err e) f q h = tt

pub OnOk-any {ℓ} : {A : Type ℓ} (r : Result A) → OnOk (λ _. Unit) r
OnOk-any (ok a) = tt
OnOk-any (err e) = tt

pub bind_ok {ℓ} : {A : Type ℓ} (r : Result A) → (r >>= λ a. ok a) ≡ r
bind_ok (ok a) = refl
bind_ok (err e) = refl
