-- ===== src/Pubsub/Ids/Tests.antt =====
-- The counters of src/pubsub/pub_sub.hpp at concrete inputs.
use rproxy.Base.{◌≡◌, refl, List, [], ◌∷◌, arith}
use rproxy.Base.Eq.{nat_eq}
use rproxy.Base.Maps.{find, erase}
use rproxy.Pubsub.Ids.{Step, loads, adds, start, load, fetch_add, step, run}
use rproxy.Pubsub.Ids.Unique.{AreDistinct, run-AreDistinct}

-- Two threads load the same value: the second one to add tries again.
abbrev raced : List Step
raced = loads 1 ∷ loads 2 ∷ adds 2 ∷ adds 1 ∷ loads 1 ∷ adds 1 ∷ []

second_tries_again : (run raced start).returned ≡ 2 ∷ 0 ∷ []
unfolding run step start load fetch_add find erase
second_tries_again = refl

run-AreDistinct_example : AreDistinct (run raced start).returned
run-AreDistinct_example = run-AreDistinct raced (omega arith)
