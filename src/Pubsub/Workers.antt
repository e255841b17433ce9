-- ===== src/Pubsub/Workers.antt =====
-- `WorkerGroup` of src/pubsub/worker_group.hpp: its threads, `submit` of a function and `stop`, as
-- steps in any order. A task is a value; what it does is not of the group's concern.
pub mod Order
pub mod Race
mod Tests
use rproxy.Base.{
  ℕ, Bool, true, false, none, some, List, [], ◌∷◌, ◌++◌, ◌≡◌, get_elem?, put, replicate,
  if◌then◌else◌, Result, ok, ◌>>=◌,
}
use rproxy.Network.Queue.{LockedQueue, push, lock_front, drop_front}

-- Where a thread is: at the loop's test, in `pop` where it waits, in `pop` after it gave the lock back
-- and before it removes the front, in a task, or past the loop.
pub data Worker (A : Type 0) : Type 0 where
  testing waiting left : Worker A
  taking running : A → Worker A

-- `taken` has the tasks that the threads found in front of the queue and are to run, in order. The
-- copy that `pop` returns is what the front was under the lock.
pub record WorkerGroup (A : Type 0) : Type 0 where
  pub stopped : Bool
  pub workers : List (Worker A)
  pub task_queue : LockedQueue A
  pub taken : List A

module _ {A : Type 0} where
  -- `WorkerGroup(n_threads)`
  pub new_group : ℕ → WorkerGroup A
  new_group n = record {
    stopped = false;
    workers = replicate n testing;
    task_queue = record { queue = []; size = 0 };
    taken = [];
  }

  -- `submit(f)`
  pub submit : A → WorkerGroup A → WorkerGroup A
  submit f g = record g { task_queue = push f g.task_queue }

  -- `stop`
  pub stop : WorkerGroup A → WorkerGroup A
  stop g = record g { stopped = true }

  -- `task_queue_.pop()` under the lock, where thread `i` is waiting.
  pub take_front : ℕ → WorkerGroup A → WorkerGroup A
  take_front i g = elim (lock_front g.task_queue) [
    | none ↦ g
    | some p ↦ record g {
      workers = put i (taking p.0) g.workers;
      task_queue = p.1;
      taken = g.taken ++ (p.0 ∷ []);
    }
  ]

  -- The rest of the call, which has the task `f`.
  pub finish_pop : ℕ → A → WorkerGroup A → Result (WorkerGroup A)
  finish_pop i f g = do
    q ← drop_front g.task_queue
    ok (record g { workers = put i (running f) g.workers; task_queue = q })

  -- One step of thread `i`.
  pub work : ℕ → WorkerGroup A → Result (WorkerGroup A)
  work i g = elim (get_elem? g.workers i) [
    | none ↦ ok g
    | some w ↦ elim w [
      | testing ↦ ok (record g { workers = put i (if g.stopped then left else waiting) g.workers })
      | waiting ↦ ok (take_front i g)
      | taking f ↦ finish_pop i f g
      | running f ↦ ok (record g { workers = put i testing g.workers })
      | left ↦ ok g
    ]
  ]

  -- What is reached from a group, in any order of the calls and of the threads' steps, none of them
  -- undefined: `fs` are the tasks that were submitted meanwhile.
  pub data Reaches (g : WorkerGroup A) : List A → WorkerGroup A → Type 0 where
    here : Reaches g [] g
    after_submit :
        {fs : List A} {h : WorkerGroup A} (f : A)
        → Reaches g fs h
        → Reaches g (fs ++ (f ∷ [])) (submit f h)
    after_stop : {fs : List A} {h : WorkerGroup A} → Reaches g fs h → Reaches g fs (stop h)
    after_work :
        {fs : List A} {h h' : WorkerGroup A} (i : ℕ)
        → Reaches g fs h
        → work i h ≡ ok h'
        → Reaches g fs h'
