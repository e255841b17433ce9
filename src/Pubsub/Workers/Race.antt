-- ===== src/Pubsub/Workers/Race.antt =====
-- Two threads of a `WorkerGroup` (src/pubsub/worker_group.hpp) in `pop` (src/network/queue.hpp) at once.
use rproxy.Base.{
  ℕ, ◌≡◌, ◌≢◌, refl, ap, sym, ◌∙◌, some, List, [], ◌∷◌, ◌++◌, append_assoc, get_elem?, put,
  get_elem?-put_same, get_elem?-put_other, Result, ok, err, undefined, ◌>>=◌,
}
use rproxy.Network.Queue.{lock_front, drop_front}
use rproxy.Pubsub.Workers.{waiting, taking, running, WorkerGroup, take_front, finish_pop, work}

module _ {A : Type 0} where
  -- How the second thread's `pop` ends: it is undefined on a queue that the first one made empty, and
  -- else removes the next task.
  abbrev pub Ends : ℕ → ℕ → A → List A → List A → Result (WorkerGroup A) → Type 0
  Ends i j f taken [] r = r ≡ err undefined
  Ends i j f taken (x ∷ xs) r =
      (h : WorkerGroup A) × (r ≡ ok h)
      × (get_elem? h.workers i ≡ some (running f))
      × (get_elem? h.workers j ≡ some (running f))
      × (h.taken ≡ taken ++ (f ∷ f ∷ []))
      × (h.task_queue.queue ≡ xs)

  take_front_of :
      (i : ℕ) (f : A) (rest : List A) (g : WorkerGroup A)
      → get_elem? g.workers i ≡ some waiting
      → g.task_queue.queue ≡ f ∷ rest
      → (h : WorkerGroup A) × (work i g ≡ ok h)
        × (h.workers ≡ put i (taking f) g.workers)
        × (h.taken ≡ g.taken ++ (f ∷ []))
        × (h.task_queue.queue ≡ f ∷ rest)
  unfolding work take_front lock_front
  take_front_of i f rest g at q = rw (at, work, q, take_front, lock_front) (_, refl, refl, refl, q)

  finish_pop_of :
      (i : ℕ) (f x : A) (rest : List A) (g : WorkerGroup A)
      → get_elem? g.workers i ≡ some (taking f)
      → g.task_queue.queue ≡ x ∷ rest
      → (h : WorkerGroup A) × (work i g ≡ ok h)
        × (h.workers ≡ put i (running f) g.workers)
        × (h.taken ≡ g.taken)
        × (h.task_queue.queue ≡ rest)
  unfolding work finish_pop drop_front
  finish_pop_of i f x rest g at q =
      rw (at, work, finish_pop, drop_front, q) (_, refl, refl, refl, refl)

  finish_pop_empty :
      (i : ℕ) (f : A) (g : WorkerGroup A)
      → get_elem? g.workers i ≡ some (taking f)
      → g.task_queue.queue ≡ []
      → work i g ≡ err undefined
  unfolding work finish_pop drop_front
  finish_pop_empty i f g at q = rw (at, work, finish_pop, drop_front, q) refl

  second-Ends :
      (i j : ℕ) (f : A) (taken rest : List A) (g : WorkerGroup A)
      → i ≢ j
      → get_elem? g.workers i ≡ some (running f)
      → get_elem? g.workers j ≡ some (taking f)
      → g.taken ≡ taken ++ (f ∷ f ∷ [])
      → g.task_queue.queue ≡ rest
      → Ends i j f taken rest (work j g)
  second-Ends i j f taken [] g different at_i at_j t q = finish_pop_empty j f g at_j q
  second-Ends i j f taken (x ∷ xs) g different at_i at_j t q =
      let (h, run, workers, same_taken, left_over) = finish_pop_of j f x xs g at_j q in
      (
        h,
        run,
        ap (λ ws. get_elem? ws i) workers
            ∙ get_elem?-put_other j i (running f) g.workers (λ e. different (sym e))
            ∙ at_i,
        ap (λ ws. get_elem? ws j) workers ∙ get_elem?-put_same j (running f) _ g.workers at_j,
        same_taken ∙ t,
        left_over,
      )

  -- `pop` of two different threads `i` and `j` that wait, where there is a task `f` in the queue: both
  -- pass the lock before either removes the front. Both have the task `f`. If it was the only one, the
  -- second removal is on an empty queue, which is undefined; otherwise both threads run `f`, and the
  -- task behind it is removed and taken by nobody.
  pub take_front-Twice :
      (i j : ℕ) (f : A) (rest : List A) (g : WorkerGroup A)
      → i ≢ j
      → get_elem? g.workers i ≡ some waiting
      → get_elem? g.workers j ≡ some waiting
      → g.task_queue.queue ≡ f ∷ rest
      → Ends i j f g.taken rest (work i g >>= work j >>= work i >>= work j)
  take_front-Twice i j f rest g different at_i at_j q =
      let other : j ≢ i = λ e. different (sym e) in
      let (g₁, run₁, workers₁, taken₁, q₁) = take_front_of i f rest g at_i q in
      let at_j₁ : get_elem? g₁.workers j ≡ some waiting =
        ap (λ ws. get_elem? ws j) workers₁
        ∙ get_elem?-put_other i j (taking f) g.workers different
        ∙ at_j in
      let at_i₁ : get_elem? g₁.workers i ≡ some (taking f) =
        ap (λ ws. get_elem? ws i) workers₁ ∙ get_elem?-put_same i (taking f) _ g.workers at_i in
      let (g₂, run₂, workers₂, taken₂, q₂) = take_front_of j f rest g₁ at_j₁ q₁ in
      let at_i₂ : get_elem? g₂.workers i ≡ some (taking f) =
        ap (λ ws. get_elem? ws i) workers₂
        ∙ get_elem?-put_other j i (taking f) g₁.workers other
        ∙ at_i₁ in
      let at_j₂ : get_elem? g₂.workers j ≡ some (taking f) =
        ap (λ ws. get_elem? ws j) workers₂ ∙ get_elem?-put_same j (taking f) _ g₁.workers at_j₁ in
      let (g₃, run₃, workers₃, taken₃, q₃) = finish_pop_of i f f rest g₂ at_i₂ q₂ in
      rw (run₁, run₂, run₃)
        (second-Ends i j f g.taken rest g₃ different
          (ap (λ ws. get_elem? ws i) workers₃ ∙ get_elem?-put_same i (running f) _ g₂.workers at_i₂)
          (ap (λ ws. get_elem? ws j) workers₃
            ∙ get_elem?-put_other i j (running f) g₂.workers different
            ∙ at_j₂)
          (taken₃
            ∙ taken₂
            ∙ ap (λ ts. ts ++ (f ∷ [])) taken₁
            ∙ append_assoc g.taken (f ∷ []) (f ∷ []))
          q₃)
