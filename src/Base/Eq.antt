-- ===== src/Base/Eq.antt =====
-- Equality of keys as an interface, with the instances that the program's maps need.
use Prim.Native.Nat.{ℕ}
use mathlib.Core.Path.{◌≡◌, refl}
use mathlib.Core.Logic.{◌↔◌}
use mathlib.Core.Bool.{Bool, true, false, ◌&&◌}
use mathlib.Core.List.{List, [], ◌∷◌}
use native.Mathlib.Omega.{arith}
use rproxy.Base.Tests.{◌==◌ as nat_beq, ==_iff as nat_beq_iff}

pub record Eq {ℓ} (K : Type ℓ) : Type ℓ where
  pub beq : K → K → Bool
  pub beq_iff : (j k : K) → (beq j k ≡ true) ↔ (j ≡ k)

abbrev pub same {ℓ} : {A : Type ℓ} ⦃e : Eq A⦄ → A → A → Bool
same ⦃e⦄ = e.beq

instance abbrev pub nat_eq : Eq ℕ
nat_eq = record { beq = nat_beq; beq_iff = nat_beq_iff }

abbrev pub list_beq : List ℕ → List ℕ → Bool
list_beq [] [] = true
list_beq [] (y ∷ ys) = false
list_beq (x ∷ xs) [] = false
list_beq (x ∷ xs) (y ∷ ys) = nat_beq x y && list_beq xs ys

pub list_beq_iff : (xs ys : List ℕ) → (list_beq xs ys ≡ true) ↔ (xs ≡ ys)
list_beq_iff [] [] = (λ _. refl, λ _. refl)
list_beq_iff [] (y ∷ ys) = (λ e. cc, λ e. cc)
list_beq_iff (x ∷ xs) [] = (λ e. cc, λ e. cc)
list_beq_iff (x ∷ xs) (y ∷ ys) =
    (λ e. ground (arith, (list_beq_iff xs ys).0), λ e. ground (arith, (list_beq_iff xs ys).1))

instance abbrev pub text_eq : Eq (List ℕ)
text_eq = record { beq = list_beq; beq_iff = list_beq_iff }

module _ {ℓ} {A : Type ℓ} ⦃e : Eq A⦄ where
  pub same_refl : (a : A) → same a a ≡ true
  same_refl a = (e.beq_iff a a).1 refl

  pub same→eq : (a b : A) → same a b ≡ true → a ≡ b
  same→eq a b = (e.beq_iff a b).0

  pub same_sym : (a b : A) → same a b ≡ same b a
  same_sym a b = ground (arith, e.beq_iff a b, e.beq_iff b a)
