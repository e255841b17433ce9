-- ===== src/Network/Queue/Power.antt =====
-- `round_up_to_power_of_two` of src/network/queue.hpp.
use rproxy.Base.{
  ℕ, zero, suc, ◌+◌, ◌*◌, ◌^◌, ◌%◌, ◌≤◌, ◌<◌, ◌≡◌, ◌≢◌, ◌⊎◌, refl, ap, ltb, ltb→lt, not-ltb, Result,
  ok, arith, Bool-cases, inl, inr, size_mod,
}
use native.Mathlib.Numerals.{unary_clauses}
use rproxy.Network.Queue.{round_loop, round_up_to_power_of_two}

-- The least power of two that is not below `size`, 1 for 0.
abbrev pub Rounds : ℕ → Result ℕ → Type 0
Rounds size r = (k : ℕ) × (r ≡ ok (2 ^ k)) × (size ≤ 2 ^ k) × ((k ≡ 0) ⊎ (2 ^ k < 2 * size))

double : (j : ℕ) → 2 ^ suc j ≡ 2 ^ j * 2
double j = simp unary_clauses (omega arith)

-- From 2 ^ j, which `size` is above half of.
round_loop-Rounds :
    (fuel j size : ℕ)
    → j + fuel ≡ 64
    → j ≤ 63
    → size ≤ 2 ^ 63
    → (j ≡ 0) ⊎ (2 ^ j < 2 * size)
    → Rounds size (round_loop fuel size (2 ^ j))
unfolding round_loop
round_loop-Rounds zero j size f p small least = absurd (omega arith)
round_loop-Rounds (suc fuel) j size f p small least = elim (Bool-cases (ltb (2 ^ j) size)) [
  | inl less ↦
      let doubled : 2 ^ j * 2 % size_mod ≡ 2 ^ suc j =
        omega (arith, double j, ltb→lt (2 ^ j) size less) in
      rw (less, doubled)
        (round_loop-Rounds fuel (suc j) size (omega arith) (before_last (ltb→lt (2 ^ j) size less))
          small (inr (omega (arith, double j, ltb→lt (2 ^ j) size less))))
  | inr enough ↦ (j, rw enough refl, not-ltb (2 ^ j) size enough, least)
]
  where
    not_last : 2 ^ j < size → j ≢ 63
    not_last less e = omega (arith, ap (λ n. 2 ^ n) e)

    before_last : 2 ^ j < size → suc j ≤ 63
    before_last less = omega (arith, not_last less)

-- For a size that such a number can reach, up to 2^63, the loop ends, and gives the least power of two
-- that is not below the size: one that is above twice the size only where it is 1.
pub round_up-Rounds : (size : ℕ) → size ≤ 2 ^ 63 → Rounds size (round_up_to_power_of_two size)
unfolding round_up_to_power_of_two
round_up-Rounds size h = round_loop-Rounds 64 0 size refl (omega arith) h (inl refl)
