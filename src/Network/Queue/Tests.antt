-- ===== src/Network/Queue/Tests.antt =====
-- `LockedQueue` and the capacity of `LockFreeQueue` (src/network/queue.hpp) at concrete inputs.
use rproxy.Base.{ℕ, ◌≡◌, refl, List, [], none, some, ◌∷◌, ok}
use rproxy.Network.Queue.{
  LockedQueue, push, pop, round_loop, round_up_to_power_of_two, LockFreeQueue, move_queue,
}
use rproxy.Network.Queue.Order.{Op, pushes, pops, run}

abbrev one_waits : LockedQueue ℕ
one_waits = record { queue = 4 ∷ []; size = 1 }

abbrev calls : List (Op ℕ)
calls = pops ∷ pops ∷ pushes 5 ∷ pushes 6 ∷ pops ∷ []

popped : (run calls one_waits).0 ≡ 4 ∷ 5 ∷ []
unfolding run pop push
popped = refl

abbrev held : LockFreeQueue ℕ
held = record { capacity = 4; size = 1; head = some 0; tail = some 0; buffer = 9 ∷ [] }

rounded : round_up_to_power_of_two 1000 ≡ ok 1024
unfolding round_up_to_power_of_two round_loop
rounded = refl

-- A queue that is moved loses its place, and what it is moved from keeps it.
moved : move_queue held ≡ (
  record held { head = none; tail = none },
  record held { size = 0; capacity = 0; buffer = [] },
)
unfolding move_queue
moved = refl
