-- ===== src/Proxy/Threads/Solo.antt =====
-- A call of `zeroCopy` (src/proxy/proxy_server.cc) that runs alone.
use rproxy.Base.{
  ℕ, zero, suc, ◌+◌, ◌-◌, ◌≤◌, ◌≡◌, refl, sym, ap, ◌∙◌, none, some, [], ◌∷◌, ◌++◌, append_assoc,
  append-nil, length, take, drop, put, get_elem?-put_same, replicate, length-append, length-take,
  length-drop, Option-cases, inl, inr, arith, ok,
}
use mathlib.Core.Path.{subst}
use rproxy.Proxy.Server.{Kernel, Copied, copy_loop, zero_copy}
use rproxy.Proxy.Server.Pipe.{Moves, copy_loop_failed, copy_loop_moved}
use rproxy.Proxy.Threads.{Place, receiving, sending, returned, Shared, step_at, run}
use rproxy.Proxy.Threads.Flow.{bytes_of, bytes_of-append}
use rproxy.Proxy.Threads.Steps.{IsAt, step_of}

-- The thread has done what the call on its own does: it has its result, the pipe and the kernel are
-- as it leaves them, and what it sent was delivered.
abbrev pub HasDone : {S : Type 0} → ℕ → Shared S → Copied S → Shared S → Type 0
HasDone i g (total, sent, pipe, s) g' =
    IsAt i (returned total) g'
    × (g'.pipe ≡ pipe)
    × (g'.kernel ≡ s)
    × (bytes_of g'.delivered ≡ bytes_of g.delivered ++ sent)

-- Its steps, some number of them.
abbrev pub RunsTo : {S : Type 0} → Kernel S → ℕ → Shared S → Copied S → Type 0
RunsTo k i g c = (n : ℕ) × HasDone i g c (run k (replicate n i) g)

module _ {S : Type 0} (k : Kernel S) (moves : Moves k) where
  one_more :
      (i : ℕ) (p : Place) (g g' : Shared S) (c : Copied S)
      → IsAt i p g
      → step_at k i p g ≡ g'
      → (n : ℕ) × HasDone i g c (run k (replicate n i) g')
      → RunsTo k i g c
  unfolding run
  one_more i p g g' c at e (n, done) = (
    suc n,
    subst (λ q. HasDone i g c (run k (replicate n i) q)) (sym (step_of k i p g at ∙ e)) done,
  )

  loop_alone :
      (fuel i len total out_fd : ℕ) (g : Shared S)
      → IsAt i (sending len total out_fd) g
      → len ≤ fuel
      → len ≤ length g.pipe
      → (c : Copied S) × (copy_loop k fuel len total out_fd g.pipe g.kernel ≡ ok c) × RunsTo k i g c
  unfolding copy_loop run step_at
  loop_alone fuel i zero total out_fd g at f h = (
    (some total, [], g.pipe, g.kernel),
    refl,
    one_more i _ g _ _ at refl (
      0,
      (get_elem?-put_same i _ _ g.threads at, refl, refl, sym (append-nil (bytes_of g.delivered))),
    ),
  )
  loop_alone zero i (suc len) total out_fd g at f h = absurd (omega arith)
  loop_alone (suc fuel) i (suc len) total out_fd g at f h =
      let answer = k.splice_out out_fd (take (suc len) g.pipe) g.kernel in
      elim (Option-cases answer.0) [
        | inl failed ↦ (
          (some total, [], g.pipe, answer.1),
          copy_loop_failed k fuel len total out_fd g.pipe g.kernel failed,
          one_more i _ g
              (record g { kernel = answer.1; threads = put i (returned (some total)) g.threads }) _
              at (rw (step_at, failed) refl)
              (
                0,
                (
                  get_elem?-put_same i _ _ g.threads at,
                  refl,
                  refl,
                  sym (append-nil (bytes_of g.delivered)),
                ),
              ),
        )
        | inr (n, moved) ↦
            let (some_moved, bound) =
              moves out_fd (take (suc len) g.pipe) g.kernel n
                (omega (arith, length-take {0} (suc len) g.pipe)) moved in
            let g' : Shared S = record g {
              kernel = answer.1;
              pipe = drop n g.pipe;
              delivered = g.delivered ++ ((out_fd, take n g.pipe) ∷ []);
              threads = put i (sending (suc len - n) (total + n) out_fd) g.threads;
            } in
            let ((t, sent, pipe, s), looped, (m, (at', piped, kernel, delivered))) =
              loop_alone fuel i (suc len - n) (total + n) out_fd g'
                (get_elem?-put_same i _ _ g.threads at) (omega arith)
                (omega (arith, length-take {0} (suc len) g.pipe, length-drop {0} n g.pipe)) in
            (
              (t, take n g.pipe ++ sent, pipe, s),
              copy_loop_moved k fuel len total out_fd n g.pipe g.kernel moved ∙ rw looped refl,
              one_more i _ g g' _ at (rw (step_at, moved) refl) (
                m,
                (
                  at',
                  piped,
                  kernel,
                  (delivered
                      ∙ ap (λ xs. xs ++ sent)
                          (bytes_of-append g.delivered ((out_fd, take n g.pipe) ∷ []))
                      ∙ append_assoc (bytes_of g.delivered) (take n g.pipe ++ []) sent
                      ∙ ap (λ xs. bytes_of g.delivered ++ (xs ++ sent))
                          (append-nil (take n g.pipe))),
                ),
              ),
            )
      ]

  -- Where nothing else runs, the steps of a call of `zeroCopy` are the call: there is a number of them
  -- after which the thread has the result of `zero_copy`, and the pipe, the kernel and what was
  -- delivered are as it leaves them.
  pub zero_copy_alone :
      (i in_fd out_fd : ℕ) (g : Shared S)
      → IsAt i (receiving in_fd out_fd) g
      → (c : Copied S) × (zero_copy k in_fd out_fd g.pipe g.kernel ≡ ok c) × RunsTo k i g c
  unfolding zero_copy run step_at
  zero_copy_alone i in_fd out_fd g at = elim (Option-cases ((k.splice_in in_fd g.kernel).0)) [
    | inl failed ↦
        let s = (k.splice_in in_fd g.kernel).1 in
        (
          (none, [], g.pipe, s),
          rw (zero_copy, failed) refl,
          one_more i _ g (record g { kernel = s; threads = put i (returned none) g.threads }) _ at
              (rw (step_at, failed) refl)
              (
                0,
                (
                  get_elem?-put_same i _ _ g.threads at,
                  refl,
                  refl,
                  sym (append-nil (bytes_of g.delivered)),
                ),
              ),
        )
    | inr (bytes, got) ↦
        let g' : Shared S = record g {
          kernel = (k.splice_in in_fd g.kernel).1;
          pipe = g.pipe ++ bytes;
          received = g.received ++ bytes;
          threads = put i (sending (length bytes) 0 out_fd) g.threads;
        } in
        let (c, looped, (m, (at', piped, kernel, delivered))) =
          loop_alone (length bytes) i (length bytes) 0 out_fd g'
            (get_elem?-put_same i _ _ g.threads at) (omega arith)
            (omega (arith, length-append {0} g.pipe bytes)) in
        (
          c,
          rw (zero_copy, got) looped,
          one_more i _ g g' c at (rw (step_at, got) refl) (m, (at', piped, kernel, delivered)),
        )
  ]
