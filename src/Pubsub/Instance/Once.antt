-- ===== src/Pubsub/Instance/Once.antt =====
-- The center that `PubSubCenter::instance` (src/pubsub/pub_sub.cc) gives.
use rproxy.Base.{
  ℕ, zero, suc, ◌≤◌, ◌≡◌, refl, sym, Option, none, some, List, [], ◌∷◌, get_elem?, replicate, arith,
  Option-cases, inl, inr,
}
use mathlib.Core.Path.{subst}
use rproxy.Pubsub.Instance.{Place, first_test, returned, Program, step, run, start}
use rproxy.Pubsub.Instance.Places.{Fits, Counts, IsSafe, step_at-IsSafe}

step-IsSafe : (i : ℕ) (g : Program) → IsSafe g → IsSafe (step i g)
unfolding step
step-IsSafe i g v = elim (Option-cases (get_elem? g.threads i)) [
  | inl out ↦ rw (out, step) v
  | inr (p, at) ↦ rw (at, step) (step_at-IsSafe i p g v at)
]

run-IsSafe : (is : List ℕ) (g : Program) → IsSafe g → IsSafe (run is g)
unfolding run
run-IsSafe [] g v = v
run-IsSafe (i ∷ is) g v = run-IsSafe is (step i g) (step-IsSafe i g v)

all_begin : (n i : ℕ) (p : Place) → get_elem? (replicate n first_test) i ≡ some p → p ≡ first_test
all_begin zero i p e = absurd cc
all_begin (suc n) zero p e = cc
all_begin (suc n) (suc i) p e = all_begin n i p e

start-IsSafe : (n : ℕ) → IsSafe (start n)
unfolding start
start-IsSafe n = record {
  counts = refl;
  places = λ i p e. subst (λ q. Fits i q none none 0) (sym (all_begin n i p e)) tt;
}

made_bound : (o h : Option ℕ) (m : ℕ) → Counts o h m → m ≤ 1
made_bound none none m k = omega (arith, k)
made_bound none (some j) m k = k
made_bound (some c) h m k = omega (arith, k.1)

-- However many threads call `instance` before there is a center, and in whatever order their steps
-- come: at most one center is made, and each call that has returned gave that center, never a null
-- pointer.
pub run-Once :
    (n : ℕ) (is : List ℕ)
    → let g = run is (start n) in
      (g.made ≤ 1)
      × ((i : ℕ) (c : Option ℕ) → get_elem? g.threads i ≡ some (returned c) → c ≡ some 0)
run-Once n is =
    let v = run-IsSafe is (start n) (start-IsSafe n) in
    let g = run is (start n) in
    (made_bound g.center g.holder g.made v.counts, λ i c e. v.places i (returned c) e)
