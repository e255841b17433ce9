-- ===== src/Network/Queue.antt =====
-- src/network/queue.hpp: `LockedQueue`, and the constructors of `LockFreeQueue`, which has no other
-- operations. `push` and `empty` take the lock of a `LockedQueue`, so that each is one step; `pop` gives
-- it back halfway, and is two.
pub mod Order
pub mod Power
pub mod Capacity
mod Tests
use Prim.Native.Nat.{bit_and}
use rproxy.Base.{
  ℕ, zero, suc, ◌-◌, ◌&&◌, ◌>>=◌, ◌*◌, ◌^◌, ◌%◌, Bool, true, false, not, Option, none, some, List,
  [], ◌∷◌, ◌++◌, ltb, ◌==◌, add_size, sub_size, size_mod, if◌then◌else◌, Result, ok, err, endless,
  undefined,
}

-- `queue_`, the oldest first, and `size_`.
pub record LockedQueue {ℓ} (A : Type ℓ) : Type ℓ where
  pub queue : List A
  pub size : ℕ

unfoldable pub push {ℓ} : {A : Type ℓ} → A → LockedQueue A → LockedQueue A
push v q = record q { queue = q.queue ++ (v ∷ []); size = add_size q.size 1 }

-- What `pop` does under the lock: `none` where the caller waits, and else what `ret` refers to.
unfoldable pub lock_front {ℓ} : {A : Type ℓ} → LockedQueue A → Option (A × LockedQueue A)
lock_front q = elim q.queue [
  | [] ↦ none
  | v ∷ rest ↦ some (v, record q { size = sub_size q.size 1 })
]

-- `queue_.pop()`, which `pop` calls without the lock: on an empty queue it is undefined.
unfoldable pub drop_front {ℓ} : {A : Type ℓ} → LockedQueue A → Result (LockedQueue A)
drop_front q = elim q.queue [ [] ↦ err undefined | v ∷ rest ↦ ok (record q { queue = rest }) ]

-- `pop` of a thread that no other one comes in between of: `none` where it waits.
unfoldable pub pop {ℓ} : {A : Type ℓ} → LockedQueue A → Option (A × LockedQueue A)
pop q = elim q.queue [
  | [] ↦ none
  | v ∷ rest ↦ some (v, record q { queue = rest; size = sub_size q.size 1 })
]

-- `empty`: `size_` as a condition
unfoldable pub empty {ℓ} : {A : Type ℓ} → LockedQueue A → Bool
empty q = not (q.size == 0)

-- `while (power < size) power <<= 1;`, on fuel.
pub round_loop : ℕ → ℕ → ℕ → Result ℕ
round_loop zero size power = if ltb power size then err endless else ok power
round_loop (suc fuel) size power =
    let rest = round_loop fuel size (power * 2 % size_mod) in
    if ltb power size then rest else ok power

-- `round_up_to_power_of_two`: 64 rounds, after which `power` is 0 for good.
pub round_up_to_power_of_two : ℕ → Result ℕ
round_up_to_power_of_two size = round_loop 64 size 1

-- `is_power_of_two`
pub is_power_of_two : ℕ → Bool
is_power_of_two size = ltb 0 size && (bit_and size (size - 1) == 0)

-- `head_` and `tail_`, `none` for -1, and what `buffer_` holds.
pub record LockFreeQueue {ℓ} (A : Type ℓ) : Type ℓ where
  pub capacity : ℕ
  pub size : ℕ
  pub head : Option ℕ
  pub tail : Option ℕ
  pub buffer : List A

-- `LockFreeQueue(capacity)`
pub new_queue {ℓ} : {A : Type ℓ} → ℕ → Result (LockFreeQueue A)
new_queue capacity = do
  let rounded = round_up_to_power_of_two capacity
  power ← (if is_power_of_two capacity then ok capacity else rounded)
  ok (record { capacity = power; size = 0; head = none; tail = none; buffer = [] })

-- `LockFreeQueue(LockFreeQueue &&)`: the new queue, and what becomes of the other. The stores of -1 go
-- to the new queue.
pub move_queue {ℓ} : {A : Type ℓ} → LockFreeQueue A → LockFreeQueue A × LockFreeQueue A
move_queue q =
    (record q { head = none; tail = none }, record q { size = 0; capacity = 0; buffer = [] })
