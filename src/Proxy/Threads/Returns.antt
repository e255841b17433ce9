-- ===== src/Proxy/Threads/Returns.antt =====
-- Every call of `zeroCopy` (src/proxy/proxy_server.cc) returns, whatever the other threads do.
use rproxy.Base.{
  ℕ, zero, suc, ◌+◌, ◌-◌, ◌≤◌, ◌<◌, ◌≡◌, refl, ◌∙◌, some, List, [], ◌∷◌, length, take,
  get_elem?-put_same, Option-cases, ==_cases, ◌==◌, if◌then◌else◌, ◌⊎◌, inl, inr, arith,
}
use rproxy.Proxy.Server.{Kernel}
use rproxy.Proxy.Server.Pipe.{Moves}
use rproxy.Proxy.Threads.{sending, returned, Shared, step_at, step, run}
use rproxy.Proxy.Threads.Owed.{owes-summed, Covers, moved_bounds, step-Covers}
use rproxy.Proxy.Threads.Flow.{bytes_of, length-delivered, sent_by}
use rproxy.Proxy.Threads.Steps.{IsAt, step_of, step-Other, stays_returned}

-- How often a thread has a step.
abbrev pub turns : ℕ → List ℕ → ℕ
turns i [] = 0
turns i (j ∷ js) = (if j == i then 1 else 0) + turns i js

-- The call has returned with `total` and what its own steps sent.
abbrev pub HasReturned : {S : Type 0} → (i total sent : ℕ) → Shared S → Type 0
HasReturned i total sent g = IsAt i (returned (some (total + sent))) g

module _ {S : Type 0} (k : Kernel S) (moves : Moves k) where
  -- What a call's own step leaves to it.
  own_step :
      (i len total out_fd : ℕ) (g : Shared S)
      → Covers g
      → IsAt i (sending len total out_fd) g
      → IsAt i (returned (some total)) (step k i g)
          × (length (bytes_of (step k i g).delivered) ≡ length (bytes_of g.delivered))
        ⊎ ((n : ℕ) × IsAt i (sending (len - n) (total + n) out_fd) (step k i g)
            × (0 < n)
            × (n ≤ len)
            × (length (bytes_of (step k i g).delivered) ≡ length (bytes_of g.delivered) + n))
  unfolding step_at
  own_step i zero total out_fd g v at =
      rw (step_of k i _ g at) (inl (get_elem?-put_same i _ _ g.threads at, refl))
  own_step i (suc len) total out_fd g v at =
      rw (step_of k i _ g at)
        (elim (Option-cases ((k.splice_out out_fd (take (suc len) g.pipe) g.kernel).0)) [
          | inl failed ↦ rw (step_at, failed) (inl (get_elem?-put_same i _ _ g.threads at, refl))
          | inr (n, moved) ↦
              let (some_moved, bound) = moved_bounds k moves i len total out_fd n g v at moved in
              let held = owes-summed i (sending (suc len) total out_fd) g.threads at in
              rw (step_at, moved)
                (inr (
                  n,
                  get_elem?-put_same i _ _ g.threads at,
                  some_moved,
                  bound,
                  length-delivered k g.delivered out_fd n g.pipe (omega (arith, v, bound, held)),
                ))
        ])

  -- A call that has returned sends nothing more.
  silent :
      (is : List ℕ) (i total : ℕ) (g : Shared S)
      → IsAt i (returned (some total)) g
      → sent_by k i is g ≡ 0
  unfolding step_at
  silent [] i total g at = refl
  silent (j ∷ js) i total g at = elim (==_cases j i) [
    | inl own ↦
        let idle : step k i g ≡ g = step_of k i (returned (some total)) g at in
        let later = silent js i total g at in rw (own, idle) (ground (arith, later))
    | inr other ↦
        let later = silent js i total (step k j g) (step-Other k j i g other ∙ at) in
        ground (arith, later, other)
  ]

  -- Where the pipe holds at least what the calls of `zeroCopy` have received and not yet sent on, a
  -- call that has counted `total` bytes and has `len` to send returns within `len + 1` of its own
  -- steps, however the others interleave with them: it answers with `total` and the number of bytes
  -- that its own steps delivered, at most `len`.
  pub run-Returns :
      (is : List ℕ) (i len total out_fd : ℕ) (g : Shared S)
      → Covers g
      → IsAt i (sending len total out_fd) g
      → len < turns i is
      → HasReturned i total (sent_by k i is g) (run k is g) × (sent_by k i is g ≤ len)
  unfolding run
  run-Returns [] i len total out_fd g v at h = absurd (omega arith)
  run-Returns (j ∷ js) i len total out_fd g v at h = elim (==_cases j i) [
    | inr other ↦
        let (final, few) =
          run-Returns js i len total out_fd (step k j g) (step-Covers k moves j g v)
            (step-Other k j i g other ∙ at) (ground (arith, h, other)) in
        let same_sent : sent_by k i (j ∷ js) g ≡ sent_by k i js (step k j g) =
          ground (arith, other) in
        rw same_sent (final, few)
    | inl own ↦ elim (own_step i len total out_fd g v at) [
      | inl (done, idle) ↦
          let none_sent : sent_by k i (j ∷ js) g ≡ 0 =
            rw own (ground (arith, idle, silent js i total (step k i g) done)) in
          let counted : total + sent_by k i (j ∷ js) g ≡ total = omega (arith, none_sent) in
          (
            rw (counted, own) (stays_returned k js i (some total) (step k i g) done),
            omega (arith, none_sent),
          )
      | inr (n, at', some_moved, bound, sent) ↦
          let (final, few) =
            run-Returns js i (len - n) (total + n) out_fd (step k i g) (step-Covers k moves i g v)
              at' (ground (arith, h, own, some_moved)) in
          let sum : sent_by k i (j ∷ js) g ≡ n + sent_by k i js (step k i g) =
            rw own (ground (arith, sent)) in
          let counted : total + sent_by k i (j ∷ js) g ≡ total + n + sent_by k i js (step k i g) =
            omega (arith, sum) in
          (rw (counted, own) final, omega (arith, sum, few, bound))
    ]
  ]
