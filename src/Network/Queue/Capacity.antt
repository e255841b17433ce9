-- ===== src/Network/Queue/Capacity.antt =====
-- The capacity of a `LockFreeQueue` (src/network/queue.hpp): its test for a power of two, and its
-- constructor.
use Prim.Native.Nat.{digits, bit_and, bit_and-bitwise, min}
use native.Mathlib.Numerals.{unary_clauses}
use mathlib.Core.Path.{subst}
use rproxy.Base.{
  ℕ, zero, suc, ◌-◌, ◌*◌, ◌/◌, ◌%◌, ◌^◌, ◌≤◌, ◌<◌, ◌≡◌, ◌⊎◌, refl, ap, ◌∙◌, sym, true, Result, ok,
  arith, Bool-cases, inl, inr, ==_cases, none, [],
}
use rproxy.Network.Queue.{LockFreeQueue, is_power_of_two, new_queue}
use rproxy.Network.Queue.Power.{round_up-Rounds}

-- The digits that two numbers share, for `n` digits at most.
abbrev shared : ℕ → ℕ → ℕ → ℕ
shared n a b = digits (λ b. zero) min n a b

shared_self : (n a : ℕ) → a ≤ n → shared n a a ≡ a
shared_self zero zero h = refl
shared_self zero (suc a) h = absurd (omega arith)
shared_self (suc n) zero h = refl
shared_self (suc n) (suc a) h = omega (arith, shared_self n (suc a / 2) (omega arith))

double : (k a : ℕ) → a ≡ 2 ^ k → a * 2 ≡ 2 ^ suc k
double k a e = simp unary_clauses (omega (arith, e))

-- A number that shares no digit with the one before it.
power_if_apart : (n m : ℕ) → suc m ≤ n → shared n (suc m) m ≡ 0 → (k : ℕ) × (suc m ≡ 2 ^ k)
power_if_apart zero m h e = absurd (omega arith)
power_if_apart (suc n) m h e = elim (==_cases (suc m % 2) 1) [
  | inl odd ↦
      let none_left : shared n (suc m / 2) (m / 2) ≡ 0 = omega (arith, e) in
      let halves : suc m / 2 ≡ m / 2 = omega arith in
      (
        0,
        omega (
          arith,
          shared_self n (m / 2) (omega arith),
          subst (λ a. shared n a (m / 2) ≡ 0) halves none_left,
        ),
      )
  | inr even ↦
      let none_left : shared n (suc m / 2) (m / 2) ≡ 0 = omega (arith, e) in
      let next : suc m / 2 ≡ suc (m / 2) = omega arith in
      let (k, power) =
        power_if_apart n (m / 2) (omega arith)
          (subst (λ a. shared n a (m / 2) ≡ 0) next none_left) in
      (suc k, omega (arith, power) ∙ double k (suc (m / 2)) power)
]

is_power_of_two_lem :
    (size : ℕ) → is_power_of_two size ≡ true → (k : ℕ) × (size ≡ 2 ^ k) × (0 < size)
unfolding is_power_of_two
is_power_of_two_lem zero e = absurd cc
is_power_of_two_lem (suc m) e =
    let apart : bit_and (suc m) (suc m - 1) ≡ 0 = ground (arith, e) in
    let before : suc m - 1 ≡ m = omega arith in
    let (k, power) =
      power_if_apart (suc m) m (omega arith)
        (sym (bit_and-bitwise (suc m) m) ∙ subst (λ n. bit_and (suc m) n ≡ 0) before apart) in
    (k, power, omega arith)

-- An empty queue whose capacity is the least power of two that is not below `size`, 1 for 0.
abbrev pub HasCapacity {ℓ} : {A : Type ℓ} → ℕ → Result (LockFreeQueue A) → Type ℓ
HasCapacity size r =
    (k : ℕ) × (r
      ≡ ok (record { capacity = 2 ^ k; size = 0; head = none; tail = none; buffer = [] }))
    × (size ≤ 2 ^ k)
    × ((k ≡ 0) ⊎ (2 ^ k < 2 * size))

-- For a size that such a number can reach, up to 2^63, the constructor of a LockFreeQueue makes an
-- empty queue, and its capacity is the least power of two that is not below the size: one that is
-- above twice the size only where it is 1.
pub new_queue-HasCapacity {ℓ} :
    {A : Type ℓ} (size : ℕ) → size ≤ 2 ^ 63 → HasCapacity {A = A} size (new_queue size)
unfolding new_queue
new_queue-HasCapacity size h = elim (Bool-cases (is_power_of_two size)) [
  | inl exact ↦
      let (k, power, positive) = is_power_of_two_lem size exact in
      rw exact (
        k,
        ap (λ n. ok (record { capacity = n; size = 0; head = none; tail = none; buffer = [] }))
            power,
        omega (arith, power),
        inr (omega (arith, power, positive)),
      )
  | inr rough ↦
      let (k, rounded, enough, least) = round_up-Rounds size h in
      rw (rough, rounded) (k, refl, enough, least)
]
