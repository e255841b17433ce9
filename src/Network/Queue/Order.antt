-- ===== src/Network/Queue/Order.antt =====
-- The order of a `LockedQueue` (src/network/queue.hpp), and what `empty` answers.
use rproxy.Base.{
  ℕ, ◌%◌, ◌<◌, ◌≡◌, ap, sym, ◌∙◌, none, some, List, [], ◌∷◌, ◌++◌, append-nil, append_assoc, length,
  length-append, add_size, sub_size, size_mod, ltb, arith,
}
use rproxy.Network.Queue.{LockedQueue, push, pop, empty}

pub data Op {ℓ} (A : Type ℓ) : Type ℓ where
  pushes : A → Op A
  pops : Op A

-- Calls one after the other, as a single thread makes them: what was popped, and the queue.
-- A caller that would wait is not one of them: its call changes nothing.
unfoldable pub run {ℓ} : {A : Type ℓ} → List (Op A) → LockedQueue A → List A × LockedQueue A
run [] q = ([], q)
run (pushes v ∷ ops) q = run ops (push v q)
run (pops ∷ ops) q = elim (pop q) [
  | none ↦ run ops q
  | some p ↦ let (out, q') = run ops p.1 in (p.0 ∷ out, q')
]

abbrev pub pushed {ℓ} : {A : Type ℓ} → List (Op A) → List A
pushed [] = []
pushed (pushes v ∷ ops) = v ∷ pushed ops
pushed (pops ∷ ops) = pushed ops

-- `size_` counts the queue, on 64 bits.
abbrev pub IsCounted {ℓ} : {A : Type ℓ} → LockedQueue A → Type 0
IsCounted q = q.size ≡ length q.queue % size_mod

module _ {ℓ} {A : Type ℓ} where
  empty_lem :
      (q : LockedQueue A)
      → IsCounted q
      → length q.queue < size_mod
      → empty q ≡ ltb 0 (length q.queue)
  unfolding empty
  empty_lem q c small = ground (arith, c)

  run-from :
      (ops : List (Op A)) (xs : List A) (n : ℕ)
      → n ≡ length xs % size_mod
      → let r = run ops (record { queue = xs; size = n }) in
        (r.0 ++ r.1.queue ≡ xs ++ pushed ops) × IsCounted r.1
  unfolding run push pop
  run-from [] xs n c = (sym (append-nil xs), c)
  run-from (pushes v ∷ ops) xs n c =
      let (order, counted) =
        run-from ops (xs ++ (v ∷ [])) (add_size n 1)
          (omega (arith, length-append {ℓ} xs (v ∷ []))) in
      (order ∙ append_assoc xs (v ∷ []) (pushed ops), counted)
  run-from (pops ∷ ops) [] n c = run-from ops [] n c
  run-from (pops ∷ ops) (x ∷ xs) n c =
      let (order, counted) = run-from ops xs (sub_size n 1) (omega arith) in
      (ap (λ ys. x ∷ ys) order, counted)

  -- Any calls, one after the other, on a queue whose size is counted: what was popped and then what is left are, in order,
  -- what was there and then what was pushed. Afterwards, on a queue shorter than 2^64, `empty` answers
  -- whether there is something in the queue.
  pub run-Ordered :
      (ops : List (Op A)) (q : LockedQueue A)
      → IsCounted q
      → let r = run ops q in
        (r.0 ++ r.1.queue ≡ q.queue ++ pushed ops)
        × (length r.1.queue < size_mod → empty r.1 ≡ ltb 0 (length r.1.queue))
  run-Ordered ops q c =
      let (order, counted) = run-from ops q.queue q.size c in
      (order, empty_lem (run ops q).1 counted)
