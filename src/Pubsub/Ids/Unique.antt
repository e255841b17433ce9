-- ===== src/Pubsub/Ids/Unique.antt =====
-- No id of src/pubsub/pub_sub.hpp is returned twice, as long as the counter does not come round.
use rproxy.Base.{
  ℕ, suc, ◌+◌, ◌%◌, ◌^◌, ◌≤◌, ◌<◌, ◌≡◌, true, false, List, [], ◌∷◌, ◌==◌, arith, Option-cases,
  Bool-cases, inl, inr,
}
use rproxy.Base.Eq.{nat_eq}
use rproxy.Base.Maps.{find, contains}
use rproxy.Pubsub.Ids.{Counter, Step, loads, adds, start, load, fetch_add, step, run}

abbrev pub additions : List Step → ℕ
additions [] = 0
additions (loads t ∷ rest) = additions rest
additions (adds t ∷ rest) = suc (additions rest)

abbrev pub AreDistinct : List ℕ → Type 0
AreDistinct [] = Unit {0}
AreDistinct (x ∷ xs) = (contains x xs ≡ false) × AreDistinct xs

-- After at most `n` additions, the ids returned are different ones below `n`.
record Counts (n : ℕ) (c : Counter) : Type 0 where
  counter : c.next ≡ n % 2 ^ 16
  below : (x : ℕ) → contains x c.returned ≡ true → x < n
  distinct : AreDistinct c.returned

fetch_add-Counts :
    (t n : ℕ) (c : Counter)
    → n < 2 ^ 16
    → Counts n c
    → (m : ℕ) × (m ≤ suc n) × Counts m (fetch_add t c)
unfolding fetch_add contains
fetch_add-Counts t n c h v = elim (Option-cases (find t c.loaded)) [
  | inl idle ↦ (n, omega arith, rw (fetch_add, idle) v)
  | inr (id, ready) ↦ elim (Bool-cases (id == c.next)) [
    | inl same_id ↦ (
      suc n,
      omega arith,
      rw (fetch_add, ready, same_id)
          record {
            counter = omega (arith, v.counter);
            below = λ x e. ground (arith, v.counter, v.below x);
            distinct = (ground (arith, v.counter, v.below id), v.distinct);
          },
    )
    | inr other ↦ (
      suc n,
      omega arith,
      rw (fetch_add, ready, other)
          record {
            counter = omega (arith, v.counter);
            below = λ x e. ground (arith, v.below x e);
            distinct = v.distinct;
          },
    )
  ]
]

load-Counts : (t n : ℕ) (c : Counter) → Counts n c → Counts n (load t c)
unfolding load
load-Counts t n c v = record { counter = v.counter; below = v.below; distinct = v.distinct }

run-Counts :
    (schedule : List Step) (n : ℕ) (c : Counter)
    → n + additions schedule ≤ 2 ^ 16
    → Counts n c
    → AreDistinct (run schedule c).returned
unfolding run step
run-Counts [] n c h v = v.distinct
run-Counts (loads t ∷ rest) n c h v = run-Counts rest n (load t c) h (load-Counts t n c v)
run-Counts (adds t ∷ rest) n c h v =
    let (m, small, after) = fetch_add-Counts t n c (omega arith) v in
    run-Counts rest m (fetch_add t c) (omega arith) after

-- Whatever the order of the threads' steps, the ids returned are all different, as long as the counter
-- was not increased more than 2^16 times, attempts that were in vain included.
pub run-AreDistinct :
    (schedule : List Step) → additions schedule ≤ 2 ^ 16 → AreDistinct (run schedule start).returned
unfolding start contains
run-AreDistinct schedule h =
    run-Counts schedule 0 start (omega arith)
      (record { counter = omega arith; below = λ x e. absurd cc; distinct = tt })
