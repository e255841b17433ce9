-- ===== src/Proxy/Threads/Flow.antt =====
-- Where the bytes go in the pipe that the threads of src/proxy/proxy_server.cc share.
use rproxy.Base.{
  ℕ, zero, suc, ◌+◌, ◌-◌, ◌≤◌, ◌==◌, if◌then◌else◌, arith, length, length-append, length-take, none,
  some, ◌≡◌, refl, sym, ap, ◌∙◌, List, [], ◌∷◌, ◌++◌, append_assoc, append-nil, take, drop,
  get_elem?, take-append-drop, Option-cases, inl, inr,
}
use rproxy.Proxy.Server.{Kernel}
use rproxy.Proxy.Server.Pipe.{Moves}
use rproxy.Proxy.Threads.Owed.{
  summed, summed-put, owes-summed, counts, Covers, moved_bounds, step-Covers,
}
use rproxy.Proxy.Threads.{Place, receiving, sending, returned, Shared, step_at, step, run}

-- All bytes that were delivered, in order.
abbrev pub bytes_of : List (ℕ × List ℕ) → List ℕ
bytes_of [] = []
bytes_of ((fd, bytes) ∷ rest) = bytes ++ bytes_of rest

pub bytes_of-append : (xs ys : List (ℕ × List ℕ)) → bytes_of (xs ++ ys) ≡ bytes_of xs ++ bytes_of ys
bytes_of-append [] ys = refl
bytes_of-append ((fd, bytes) ∷ rest) ys =
    ap (◌++◌ bytes) (bytes_of-append rest ys)
    ∙ sym (append_assoc bytes (bytes_of rest) (bytes_of ys))

-- What was delivered and what the pipe holds is what was received, in order.
abbrev pub Balances : {S : Type 0} → Shared S → Type 0
Balances g = bytes_of g.delivered ++ g.pipe ≡ g.received

module _ {S : Type 0} (k : Kernel S) where
  step_at-Balances : (i : ℕ) (p : Place) (g : Shared S) → Balances g → Balances (step_at k i p g)
  unfolding step_at
  step_at-Balances i (receiving in_fd out_fd) g v =
      elim (Option-cases ((k.splice_in in_fd g.kernel).0)) [
        | inl failed ↦ rw (step_at, failed) v
        | inr (bytes, got) ↦
            rw (step_at, got)
              (sym (append_assoc (bytes_of g.delivered) g.pipe bytes) ∙ ap (λ xs. xs ++ bytes) v)
      ]
  step_at-Balances i (sending zero total out_fd) g v = v
  step_at-Balances i (sending (suc len) total out_fd) g v =
      elim (Option-cases ((k.splice_out out_fd (take (suc len) g.pipe) g.kernel).0)) [
        | inl failed ↦ rw (step_at, failed) v
        | inr (n, moved) ↦
            rw (step_at, moved)
              (ap (λ xs. xs ++ drop n g.pipe)
                  (bytes_of-append g.delivered ((out_fd, take n g.pipe) ∷ []))
                ∙ append_assoc (bytes_of g.delivered) (take n g.pipe ++ []) (drop n g.pipe)
                ∙ ap (λ xs. bytes_of g.delivered ++ (xs ++ drop n g.pipe))
                    (append-nil (take n g.pipe))
                ∙ ap (◌++◌ (bytes_of g.delivered)) (take-append-drop n g.pipe)
                ∙ v)
      ]
  step_at-Balances i (returned total) g v = v

  step-Balances : (i : ℕ) (g : Shared S) → Balances g → Balances (step k i g)
  unfolding step
  step-Balances i g v = elim (Option-cases (get_elem? g.threads i)) [
    | inl out ↦ rw (out, step) v
    | inr (p, at) ↦ rw (at, step) (step_at-Balances i p g v)
  ]

  -- The sum of what the calls count is the number of the bytes delivered.
  abbrev pub Counts : Shared S → Type 0
  Counts g = summed counts g.threads ≡ length (bytes_of g.delivered)

  pub length-delivered :
      (xs : List (ℕ × List ℕ)) (fd n : ℕ) (pipe : List ℕ)
      → n ≤ length pipe
      → length (bytes_of (xs ++ ((fd, take n pipe) ∷ []))) ≡ length (bytes_of xs) + n
  length-delivered xs fd n pipe h =
      ap length (bytes_of-append xs ((fd, take n pipe) ∷ []))
      ∙ omega (
        arith,
        length-append {0} (bytes_of xs) (take n pipe ++ []),
        length-append {0} (take n pipe) [],
        length-take {0} n pipe,
        h,
      )

  -- The bytes that the steps of thread `i` delivered.
  abbrev pub sent_by : ℕ → List ℕ → Shared S → ℕ
  sent_by i [] g = 0
  sent_by i (j ∷ js) g =
      (if j == i
        then length (bytes_of (step k j g).delivered) - length (bytes_of g.delivered)
        else 0)
      + sent_by i js (step k j g)

  module _ (moves : Moves k) where
    step_at-Counts :
        (i : ℕ) (p : Place) (g : Shared S)
        → Covers g
        → get_elem? g.threads i ≡ some p
        → Counts g
        → Counts (step_at k i p g)
    unfolding step_at
    step_at-Counts i (receiving in_fd out_fd) g c at v =
        elim (Option-cases ((k.splice_in in_fd g.kernel).0)) [
          | inl failed ↦
              rw (step_at, failed)
                (omega (arith, v, summed-put counts i _ (returned none) g.threads at))
          | inr (bytes, got) ↦
              rw (step_at, got)
                (omega
                  (arith, v, summed-put counts i _ (sending (length bytes) 0 out_fd) g.threads at))
        ]
    step_at-Counts i (sending zero total out_fd) g c at v =
        omega (arith, v, summed-put counts i _ (returned (some total)) g.threads at)
    step_at-Counts i (sending (suc len) total out_fd) g c at v =
        elim (Option-cases ((k.splice_out out_fd (take (suc len) g.pipe) g.kernel).0)) [
          | inl failed ↦
              rw (step_at, failed)
                (omega (arith, v, summed-put counts i _ (returned (some total)) g.threads at))
          | inr (n, moved) ↦
              let (positive, bound) = moved_bounds k moves i len total out_fd n g c at moved in
              let held = owes-summed i (sending (suc len) total out_fd) g.threads at in
              rw (step_at, moved)
                (omega (
                  arith,
                  v,
                  length-delivered g.delivered out_fd n g.pipe (omega (arith, c, bound, held)),
                  summed-put counts i _ (sending (suc len - n) (total + n) out_fd) g.threads at,
                ))
        ]
    step_at-Counts i (returned total) g c at v = v

    step-Counts : (i : ℕ) (g : Shared S) → Covers g → Counts g → Counts (step k i g)
    unfolding step
    step-Counts i g c v = elim (Option-cases (get_elem? g.threads i)) [
      | inl out ↦ rw (out, step) v
      | inr (p, at) ↦ rw (at, step) (step_at-Counts i p g c at v)
    ]

    -- However the steps of the calls of `zeroCopy` interleave, where the pipe holds at least the bytes
    -- that the calls have received and not yet sent on: what reached the sockets and what the pipe
    -- still holds are, in order, the bytes that were received; the totals that the calls have counted
    -- or answered add up to the number of bytes that reached the sockets; and the pipe holds at least
    -- the bytes that the calls have still to send; if the first two were so before.
    pub run-Balances :
        (is : List ℕ) (g : Shared S)
        → Covers g
        → Balances g
        → Counts g
        → Balances (run k is g) × Counts (run k is g) × Covers (run k is g)
    unfolding run
    run-Balances [] g c v w = (v, w, c)
    run-Balances (i ∷ is) g c v w =
        run-Balances is (step k i g) (step-Covers k moves i g c) (step-Balances i g v)
          (step-Counts i g c w)
