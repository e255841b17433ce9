-- ===== src/Proxy/Server/Pipe.antt =====
-- `zeroCopy` of src/proxy/proxy_server.cc: it comes to an end, and no byte is lost in the pipe.
use rproxy.Base.{
  ℕ, zero, suc, ◌+◌, ◌-◌, ◌≤◌, ◌<◌, ◌≡◌, refl, ap, ◌∙◌, Option, none, some, List, [], ◌++◌,
  append_assoc, length, take, drop, arith, Result, ok, ◌>>=◌, length-append, length-take,
  length-drop, take-append-drop, Option-cases, inl, inr,
}
use rproxy.Proxy.Server.{Kernel, Copied, sent_first, copy_loop, zero_copy}

-- A `splice` from a pipe that holds bytes moves at least one of them, or gives -1.
abbrev pub Moves : {S : Type 0} → Kernel S → Type 0
Moves {S} k =
    (out : ℕ) (bytes : List ℕ) (s : S) (n : ℕ)
    → 0 < length bytes
    → (k.splice_out out bytes s).0 ≡ some n
    → (0 < n) × (n ≤ length bytes)

-- The loop ends, having sent the first `n` bytes of the pipe, at most `len`.
abbrev Empties : {S : Type 0} → ℕ → ℕ → List ℕ → Result (Copied S) → Type 0
Empties {S} len total pipe r =
    (n : ℕ) × (sent : List ℕ) × (pipe' : List ℕ) × (s : S) × (r
      ≡ ok (some (total + n), sent, pipe', s))
    × (sent ++ pipe' ≡ pipe)
    × (length sent ≡ n)
    × (n ≤ len)

-- The call ends; what reaches the other socket and what stays in the pipe are, in order, the bytes
-- that were in the pipe and those received; and it answers with the number of bytes sent, at most as
-- many as were received.
abbrev pub Conserves : {S : Type 0} → List ℕ → Option (List ℕ) → Result (Copied S) → Type 0
Conserves {S} pipe none r = (s : S) × (r ≡ ok (none, [], pipe, s))
Conserves {S} pipe (some bytes) r =
    (n : ℕ) × (sent : List ℕ) × (pipe' : List ℕ) × (s : S) × (r ≡ ok (some n, sent, pipe', s))
    × (sent ++ pipe' ≡ pipe ++ bytes)
    × (length sent ≡ n)
    × (n ≤ length bytes)

-- A round of the loop.
module _ {S : Type 0} (k : Kernel S) where
  pub copy_loop_failed :
      (fuel len total out : ℕ) (pipe : List ℕ) (s : S)
      → (k.splice_out out (take (suc len) pipe) s).0 ≡ none
      → copy_loop k (suc fuel) (suc len) total out pipe s
        ≡ ok (some total, [], pipe, (k.splice_out out (take (suc len) pipe) s).1)
  unfolding copy_loop
  copy_loop_failed fuel len total out pipe s failed = ground arith

  pub copy_loop_moved :
      (fuel len total out n : ℕ) (pipe : List ℕ) (s : S)
      → (k.splice_out out (take (suc len) pipe) s).0 ≡ some n
      → copy_loop k (suc fuel) (suc len) total out pipe s ≡ (
          copy_loop k fuel
            (suc len - n)
            (total + n)
            out
            (drop n pipe)
            (k.splice_out out (take (suc len) pipe) s).1
          >>= λ copied. ok (sent_first (take n pipe) copied))
  unfolding copy_loop
  copy_loop_moved fuel len total out n pipe s moved = ground arith

module _ {S : Type 0} (k : Kernel S) (moves : Moves k) where
  copy_loop-Empties :
      (fuel len total out : ℕ) (pipe : List ℕ) (s : S)
      → len ≤ fuel
      → len ≤ length pipe
      → Empties len total pipe (copy_loop k fuel len total out pipe s)
  unfolding copy_loop
  copy_loop-Empties fuel zero total out pipe s f h =
      (0, [], pipe, s, ap (λ t. ok (some t, [], pipe, s)) (omega arith), refl, refl, omega arith)
  copy_loop-Empties zero (suc len) total out pipe s f h = absurd (omega arith)
  copy_loop-Empties (suc fuel) (suc len) total out pipe s f h =
      let answer = k.splice_out out (take (suc len) pipe) s in
      elim (Option-cases answer.0) [
        | inl failed ↦ (0, [], pipe, answer.1, ground arith, refl, refl, omega arith)
        | inr (n, moved) ↦
            let (some_moved, bound) =
              moves out (take (suc len) pipe) s n (omega (arith, length-take {0} (suc len) pipe))
                moved in
            let (m, sent, pipe', s', run, kept, size, small) =
              copy_loop-Empties fuel (suc len - n) (total + n) out (drop n pipe) answer.1
                (omega arith)
                (omega (arith, length-take {0} (suc len) pipe, length-drop {0} n pipe)) in
            (
              n + m,
              take n pipe ++ sent,
              pipe',
              s',
              copy_loop_moved k fuel len total out n pipe s moved
                  ∙ rw run (ap (λ t. ok (some t, take n pipe ++ sent, pipe', s')) (omega arith)),
              append_assoc (take n pipe) sent pipe'
                  ∙ ap (◌++◌ (take n pipe)) kept
                  ∙ take-append-drop n pipe,
              omega (
                arith,
                length-append {0} (take n pipe) sent,
                length-take {0} n pipe,
                length-take {0} (suc len) pipe,
              ),
              omega (arith, length-take {0} (suc len) pipe),
            )
      ]

  -- `zeroCopy` comes to an end, and what reaches the other socket and what stays in the pipe are, in
  -- order, the bytes that were in the pipe and then those received. It answers with the number of
  -- bytes sent, never more than were received, or with -1 where nothing could be received.
  pub zero_copy-Conserves :
      (in_fd out_fd : ℕ) (pipe : List ℕ) (s : S)
      → Conserves pipe (k.splice_in in_fd s).0 (zero_copy k in_fd out_fd pipe s)
  unfolding zero_copy
  zero_copy-Conserves in_fd out_fd pipe s = elim (Option-cases (k.splice_in in_fd s).0) [
    | inl failed ↦ rw (failed, zero_copy) ((k.splice_in in_fd s).1, refl)
    | inr (bytes, got) ↦
        let (n, sent, pipe', s', run, kept, size, small) =
          copy_loop-Empties (length bytes) (length bytes) 0 out_fd (pipe ++ bytes)
            (k.splice_in in_fd s).1 (omega arith) (omega (arith, length-append {0} pipe bytes)) in
        rw (got, zero_copy)
          (
            n,
            sent,
            pipe',
            s',
            run ∙ ap (λ t. ok (some t, sent, pipe', s')) (omega arith),
            kept,
            size,
            small,
          )
  ]
