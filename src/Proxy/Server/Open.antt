-- ===== src/Proxy/Server/Open.antt =====
-- `zeroCopy` of src/proxy/proxy_server.cc opens and closes nothing.
use rproxy.Base.{
  ℕ, zero, suc, ◌-◌, ◌+◌, Bool, ◌≡◌, refl, ◌∙◌, Option, none, some, List, ◌++◌, length, take, drop,
  Result, ok, err, OnOk, OnOk-bind, Option-cases, inl, inr,
}
use rproxy.Proxy.Server.{Kernel, Copied, copy_loop, zero_copy}
use rproxy.Proxy.Server.Pipe.{
  Moves, Conserves, zero_copy-Conserves, copy_loop_failed, copy_loop_moved,
}
use rproxy.Proxy.Server.Pairs.{KernelLaws}

abbrev state_of : {S : Type 0} → Copied S → S
state_of (total, sent, pipe, s) = s

module _ {S : Type 0} (k : Kernel S) (is_open : ℕ → S → Bool) (laws : KernelLaws k is_open) where
  -- The two states have the same open descriptors.
  abbrev pub Same : S → S → Type 0
  Same s s' = (j : ℕ) → is_open j s' ≡ is_open j s

  copy_loop-Same :
      (fuel len total out : ℕ) (pipe : List ℕ) (before s : S)
      → Same before s
      → OnOk (λ c. Same before (state_of c)) (copy_loop k fuel len total out pipe s)
  unfolding copy_loop
  copy_loop-Same fuel zero total out pipe before s h = h
  copy_loop-Same zero (suc len) total out pipe before s h = tt
  copy_loop-Same (suc fuel) (suc len) total out pipe before s h =
      let (slen, s') = k.splice_out out (take (suc len) pipe) s in
      let kept : Same before s' = λ j. laws.splice_out-keeps out j (take (suc len) pipe) s ∙ h j in
      elim (Option-cases slen) [
        | inl failed ↦ rw (copy_loop_failed k fuel len total out pipe s failed) kept
        | inr (n, moved) ↦ rw (copy_loop_moved k fuel len total out n pipe s moved) (
            OnOk-bind (λ c. Same before (state_of c)) (λ c. Same before (state_of c)) _ _
              (copy_loop-Same fuel (suc len - n) (total + n) out (drop n pipe) before s' kept)
              (λ c same_after. same_after))
      ]

  zero_copy-Same :
      (in_fd out_fd : ℕ) (pipe : List ℕ) (s : S)
      → OnOk (λ c. Same s (state_of c)) (zero_copy k in_fd out_fd pipe s)
  unfolding zero_copy
  zero_copy-Same in_fd out_fd pipe s = elim (Option-cases (k.splice_in in_fd s).0) [
    | inl failed ↦ rw (failed, zero_copy) (λ j. laws.splice_in-keeps in_fd j s)
    | inr (bytes, got) ↦
        rw (got, zero_copy)
          (copy_loop-Same (length bytes) (length bytes) 0 out_fd (pipe ++ bytes) s _
            (λ j. laws.splice_in-keeps in_fd j s))
  ]

  -- The call comes back, with the same descriptors open.
  abbrev pub Returns : S → Result (Copied S) → Type 0
  Returns s r =
      (total : Option ℕ) × (sent : List ℕ) × (pipe' : List ℕ) × (s' : S) × (r
        ≡ ok (total, sent, pipe', s'))
      × Same s s'

  returns :
      (s : S) (r : Result (Copied S)) (pipe : List ℕ) (got : Option (List ℕ))
      → OnOk (λ c. Same s (state_of c)) r
      → Conserves pipe got r
      → Returns s r
  returns s (ok (total, sent, pipe', s')) pipe got h c = (total, sent, pipe', s', refl, h)
  returns s (err e) pipe none h (s', run) = absurd cc
  returns s (err e) pipe (some bytes) h (n, sent, pipe', s', run, kept, size, small) = absurd cc

  pub zero_copy-Returns :
      (in_fd out_fd : ℕ) (pipe : List ℕ) (s : S)
      → Moves k
      → Returns s (zero_copy k in_fd out_fd pipe s)
  zero_copy-Returns in_fd out_fd pipe s moves =
      returns s _ pipe _ (zero_copy-Same in_fd out_fd pipe s)
        (zero_copy-Conserves k moves in_fd out_fd pipe s)
