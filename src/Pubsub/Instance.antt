-- ===== src/Pubsub/Instance.antt =====
-- `PubSubCenter::instance` of src/pubsub/pub_sub.cc, called by several threads. Each read or write of
-- the pointer `center` and each operation of the mutex is one step; the steps of the threads come in
-- any order.
pub mod Places
pub mod Once
mod Tests
use rproxy.Base.{ℕ, ◌+◌, Option, none, some, List, [], ◌∷◌, get_elem?, put, replicate}

-- Where a thread is, in the order of the code; `made` holds the object of `make_shared`, and
-- `returned` what the caller gets, `none` for a null pointer.
pub data Place : Type 0 where
  first_test locking second_test making unlocking returning : Place
  storing : (object : ℕ) → Place
  returned : Option ℕ → Place

-- `center`, the thread that holds `mx`, the number of centers made, and the threads.
pub record Program : Type 0 where
  pub center : Option ℕ
  pub holder : Option ℕ
  pub made : ℕ
  pub threads : List Place

-- The step of thread `i` that is at the place. A thread that waits for the mutex stays.
pub step_at : ℕ → Place → Program → Program
step_at i first_test g = elim g.center [
  | none ↦ record g { threads = put i locking g.threads }
  | some c ↦ record g { threads = put i returning g.threads }
]
step_at i locking g = elim g.holder [
  | none ↦ record g { holder = some i; threads = put i second_test g.threads }
  | some j ↦ g
]
step_at i second_test g = elim g.center [
  | none ↦ record g { threads = put i making g.threads }
  | some c ↦ record g { threads = put i unlocking g.threads }
]
step_at i making g = record g { made = g.made + 1; threads = put i (storing g.made) g.threads }
step_at i (storing c) g = record g { center = some c; threads = put i unlocking g.threads }
step_at i unlocking g = record g { holder = none; threads = put i returning g.threads }
step_at i returning g = record g { threads = put i (returned g.center) g.threads }
step_at i (returned c) g = g

pub step : ℕ → Program → Program
step i g = elim (get_elem? g.threads i) [ none ↦ g | some p ↦ step_at i p g ]

-- The steps of the threads, in this order.
pub run : List ℕ → Program → Program
run [] g = g
run (i ∷ is) g = run is (step i g)

-- `n` threads that begin their call, before there is a center.
pub start : ℕ → Program
start n = record { center = none; holder = none; made = 0; threads = replicate n first_test }
