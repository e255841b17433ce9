-- ===== src/Pubsub/Instance/Tests.antt =====
-- `PubSubCenter::instance` of src/pubsub/pub_sub.cc, called by two threads.
use rproxy.Base.{ℕ, ◌≤◌, ◌≡◌, refl, Option, some, List, [], ◌∷◌, get_elem?}
use rproxy.Pubsub.Instance.{returned, step_at, step, run, start}
use rproxy.Pubsub.Instance.Once.{run-Once}

-- Both find no center; the second thread waits for the mutex while the first makes one.
abbrev order : List ℕ
order = 0 ∷ 1 ∷ 0 ∷ 1 ∷ 0 ∷ 0 ∷ 0 ∷ 0 ∷ 0 ∷ 1 ∷ 1 ∷ 1 ∷ 1 ∷ []

both_return : (run order (start 2)).threads ≡ returned (some 0) ∷ returned (some 0) ∷ []
unfolding run start step step_at
both_return = refl

run-Once_example :
    ((run order (start 2)).made ≤ 1)
    × ((i : ℕ) (c : Option ℕ)
        → get_elem? (run order (start 2)).threads i ≡ some (returned c)
        → c ≡ some 0)
run-Once_example = run-Once 2 order
