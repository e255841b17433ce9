-- ===== src/Proxy/Threads/Steps.antt =====
-- What a step of one of the threads of src/proxy/proxy_server.cc leaves to the others.
use rproxy.Base.{
  ℕ, zero, suc, ◌≡◌, ◌≢◌, refl, ◌∙◌, Option, some, List, [], ◌∷◌, take, get_elem?,
  get_elem?-put_other, Option-cases, ==_cases, inl, inr,
}
use rproxy.Proxy.Server.{Kernel}
use rproxy.Proxy.Threads.{Place, receiving, sending, returned, Shared, step_at, step, run}

-- A thread is at a place.
abbrev pub IsAt : {S : Type 0} → ℕ → Place → Shared S → Type 0
IsAt i p g = get_elem? g.threads i ≡ some p

module _ {S : Type 0} (k : Kernel S) where
  -- The step of a thread leaves the places of the others.
  step_at-Other :
      (i j : ℕ) (p : Place) (g : Shared S)
      → i ≢ j
      → get_elem? (step_at k i p g).threads j ≡ get_elem? g.threads j
  unfolding step_at
  step_at-Other i j (receiving in_fd out_fd) g h =
      elim (Option-cases ((k.splice_in in_fd g.kernel).0)) [
        | inl failed ↦ rw (step_at, failed) (get_elem?-put_other i j _ g.threads h)
        | inr (bytes, got) ↦ rw (step_at, got) (get_elem?-put_other i j _ g.threads h)
      ]
  step_at-Other i j (sending zero total out_fd) g h = get_elem?-put_other i j _ g.threads h
  step_at-Other i j (sending (suc len) total out_fd) g h =
      elim (Option-cases ((k.splice_out out_fd (take (suc len) g.pipe) g.kernel).0)) [
        | inl failed ↦ rw (step_at, failed) (get_elem?-put_other i j _ g.threads h)
        | inr (n, moved) ↦ rw (step_at, moved) (get_elem?-put_other i j _ g.threads h)
      ]
  step_at-Other i j (returned total) g h = refl

  pub step-Other :
      (i j : ℕ) (g : Shared S) → i ≢ j → get_elem? (step k i g).threads j ≡ get_elem? g.threads j
  unfolding step
  step-Other i j g h = elim (Option-cases (get_elem? g.threads i)) [
    | inl out ↦ rw (out, step) refl
    | inr (p, at) ↦ rw (at, step) (step_at-Other i j p g h)
  ]

  pub step_of :
      (i : ℕ) (p : Place) (g : Shared S)
      → get_elem? g.threads i ≡ some p
      → step k i g ≡ step_at k i p g
  unfolding step
  step_of i p g at = rw (at, step) refl

  pub stays_returned :
      (is : List ℕ) (i : ℕ) (t : Option ℕ) (g : Shared S)
      → IsAt i (returned t) g
      → IsAt i (returned t) (run k is g)
  unfolding run step_at
  stays_returned [] i t g at = at
  stays_returned (j ∷ js) i t g at = stays_returned js i t (step k j g) (elim (==_cases j i) [
    | inl own ↦ rw own (rw (step_of i (returned t) g at) at)
    | inr other ↦ step-Other j i g other ∙ at
  ])
