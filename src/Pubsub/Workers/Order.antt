-- ===== src/Pubsub/Workers/Order.antt =====
-- The tasks of a `WorkerGroup` (src/pubsub/worker_group.hpp) with a single thread.
use rproxy.Base.{ℕ, ◌≡◌, List, [], ◌∷◌, ◌++◌, ok}
use rproxy.Pubsub.Workers.{Worker, testing, waiting, taking, left, running, WorkerGroup, work}

module _ {A : Type 0} where
  -- What is left to take: not the front of the queue, once the thread has it.
  abbrev pending : List (Worker A) → List A → List A
  pending (taking f ∷ ws) (x ∷ xs) = xs
  pending ws q = q

  -- There is one thread; where it has the front of the queue, that is still there.
  abbrev Sole : List (Worker A) → List A → Type 0
  Sole [] q = ⊥
  Sole (taking f ∷ []) [] = ⊥
  Sole (taking f ∷ []) (x ∷ xs) = x ≡ f
  Sole (testing ∷ []) q = Unit {0}
  Sole (waiting ∷ []) q = Unit {0}
  Sole (running f ∷ []) q = Unit {0}
  Sole (left ∷ []) q = Unit {0}
  Sole (v ∷ w ∷ ws) q = ⊥

  abbrev pub IsSole : WorkerGroup A → Type 0
  IsSole g = Sole g.workers g.task_queue.queue

  -- What was taken and what is left to take
  abbrev pub tasks : WorkerGroup A → List A
  tasks g = g.taken ++ pending g.workers g.task_queue.queue

  -- A step is defined, and keeps the tasks and their order.
  abbrev pub Works : ℕ → WorkerGroup A → Type 0
  Works i g = (h : WorkerGroup A) × (work i g ≡ ok h) × IsSole h × (tasks h ≡ tasks g)
