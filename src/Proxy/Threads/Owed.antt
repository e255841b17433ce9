-- ===== src/Proxy/Threads/Owed.antt =====
-- What the calls of `zeroCopy` (src/proxy/proxy_server.cc) have received and not yet sent on.
use rproxy.Base.{
  ℕ, zero, suc, ◌+◌, ◌-◌, ◌≤◌, ◌<◌, ◌≡◌, none, some, List, [], ◌∷◌, length, take, get_elem?, put,
  length-append, length-take, length-drop, Option-cases, inl, inr, arith,
}
use rproxy.Proxy.Server.{Kernel}
use rproxy.Proxy.Server.Pipe.{Moves}
use rproxy.Proxy.Threads.{Place, receiving, sending, returned, Shared, step_at, step, run}

-- The sum of a number that each place has
abbrev pub summed : (Place → ℕ) → List Place → ℕ
summed f [] = 0
summed f (p ∷ ps) = f p + summed f ps

pub summed-put :
    (f : Place → ℕ) (i : ℕ) (p q : Place) (ps : List Place)
    → get_elem? ps i ≡ some p
    → summed f (put i q ps) + f p ≡ summed f ps + f q
summed-put f i p q [] h = absurd cc
summed-put f zero p q (r ∷ ps) h = let same_place : r ≡ p = cc in rw same_place (omega arith)
summed-put f (suc i) p q (r ∷ ps) h = omega (arith, summed-put f i p q ps h)

-- The bytes that a call has received and not yet sent on.
abbrev pub owes : Place → ℕ
owes (receiving in_fd out_fd) = 0
owes (sending len total out_fd) = len
owes (returned total) = 0

-- The bytes that a call counts as sent, or answered that it sent.
abbrev pub counts : Place → ℕ
counts (receiving in_fd out_fd) = 0
counts (sending len total out_fd) = total
counts (returned none) = 0
counts (returned (some total)) = total

pub owes-summed :
    (i : ℕ) (p : Place) (ps : List Place) → get_elem? ps i ≡ some p → owes p ≤ summed owes ps
owes-summed i p [] h = absurd cc
owes-summed zero p (r ∷ ps) h = let same_place : r ≡ p = cc in rw same_place (omega arith)
owes-summed (suc i) p (r ∷ ps) h = omega (arith, owes-summed i p ps h)

-- The pipe holds at least what the calls owe.
abbrev pub Covers : {S : Type 0} → Shared S → Type 0
Covers g = summed owes g.threads ≤ length g.pipe

module _ {S : Type 0} (k : Kernel S) (moves : Moves k) where
  -- What `splice` takes of what a call owes.
  pub moved_bounds :
      (i len total out_fd n : ℕ) (g : Shared S)
      → Covers g
      → get_elem? g.threads i ≡ some (sending (suc len) total out_fd)
      → (k.splice_out out_fd (take (suc len) g.pipe) g.kernel).0 ≡ some n
      → (0 < n) × (n ≤ suc len)
  moved_bounds i len total out_fd n g v at moved =
      let held : suc len ≤ length g.pipe =
        omega (arith, v, owes-summed i (sending (suc len) total out_fd) g.threads at) in
      let (some_moved, bound) =
        moves out_fd (take (suc len) g.pipe) g.kernel n
          (omega (arith, held, length-take {0} (suc len) g.pipe)) moved in
      (some_moved, omega (arith, bound, length-take {0} (suc len) g.pipe))

  pub step_at-Covers :
      (i : ℕ) (p : Place) (g : Shared S)
      → Covers g
      → get_elem? g.threads i ≡ some p
      → Covers (step_at k i p g)
  unfolding step_at
  step_at-Covers i (receiving in_fd out_fd) g v at =
      elim (Option-cases ((k.splice_in in_fd g.kernel).0)) [
        | inl failed ↦
            rw (step_at, failed)
              (omega (arith, v, summed-put owes i _ (returned none) g.threads at))
        | inr (bytes, got) ↦
            rw (step_at, got)
              (omega (
                arith,
                v,
                length-append {0} g.pipe bytes,
                summed-put owes i _ (sending (length bytes) 0 out_fd) g.threads at,
              ))
      ]
  step_at-Covers i (sending zero total out_fd) g v at =
      omega (arith, v, summed-put owes i _ (returned (some total)) g.threads at)
  step_at-Covers i (sending (suc len) total out_fd) g v at =
      elim (Option-cases ((k.splice_out out_fd (take (suc len) g.pipe) g.kernel).0)) [
        | inl failed ↦
            rw (step_at, failed)
              (omega (arith, v, summed-put owes i _ (returned (some total)) g.threads at))
        | inr (n, moved) ↦
            rw (step_at, moved)
              (omega (
                arith,
                v,
                length-drop {0} n g.pipe,
                summed-put owes i _ (sending (suc len - n) (total + n) out_fd) g.threads at,
                moved_bounds i len total out_fd n g v at moved,
              ))
      ]
  step_at-Covers i (returned total) g v at = v

  pub step-Covers : (i : ℕ) (g : Shared S) → Covers g → Covers (step k i g)
  unfolding step
  step-Covers i g v = elim (Option-cases (get_elem? g.threads i)) [
    | inl out ↦ rw (out, step) v
    | inr (p, at) ↦ rw (at, step) (step_at-Covers i p g v at)
  ]

  pub run-Covers : (is : List ℕ) (g : Shared S) → Covers g → Covers (run k is g)
  unfolding run
  run-Covers [] g v = v
  run-Covers (i ∷ is) g v = run-Covers is (step k i g) (step-Covers i g v)
