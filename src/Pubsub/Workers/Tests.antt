-- ===== src/Pubsub/Workers/Tests.antt =====
-- `WorkerGroup` of src/pubsub/worker_group.hpp at concrete inputs.
use rproxy.Base.{ℕ, refl, false, [], ◌∷◌, ◌>>=◌, arith}
use rproxy.Network.Queue.{push, lock_front}
use rproxy.Pubsub.Workers.{
  waiting, taking, WorkerGroup, new_group, submit, take_front, work, Reaches, here, after_submit,
  after_work,
}
use rproxy.Pubsub.Workers.Race.{Ends, take_front-Twice}

-- The one thread has found the first of two tasks.
abbrev one_takes : WorkerGroup ℕ
one_takes = record {
  stopped = false;
  workers = taking 5 ∷ [];
  task_queue = record { queue = 5 ∷ 6 ∷ []; size = 1 };
  taken = 5 ∷ [];
}

abbrev one_takes_run : Reaches (new_group 1) (5 ∷ 6 ∷ []) one_takes
unfolding work new_group submit take_front push lock_front
one_takes_run = after_work 0 (after_work 0 (after_submit 6 (after_submit 5 here)) refl) refl

-- Two threads wait, and there are two tasks.
abbrev two_wait : WorkerGroup ℕ
two_wait = record {
  stopped = false;
  workers = waiting ∷ waiting ∷ [];
  task_queue = record { queue = 5 ∷ 6 ∷ []; size = 2 };
  taken = [];
}

take_front-Twice_example : Ends 0 1 5 [] (6 ∷ []) (work 0 two_wait >>= work 1 >>= work 0 >>= work 1)
take_front-Twice_example =
    take_front-Twice 0 1 5 (6 ∷ []) two_wait (λ e. omega arith) refl refl refl
