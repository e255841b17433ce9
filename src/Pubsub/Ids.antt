-- ===== src/Pubsub/Ids.antt =====
-- The counters of `ID` in src/pubsub/pub_sub.hpp. A thread takes an id in rounds of two atomic steps,
-- and the steps of different threads come in any order.
pub mod Unique
mod Tests
use rproxy.Base.{ℕ, ◌+◌, ◌%◌, ◌^◌, none, some, List, [], ◌∷◌, ◌==◌, if◌then◌else◌}
use rproxy.Base.Eq.{nat_eq}
use rproxy.Base.Maps.{find, erase}

-- One of the two counters, the `id` of each thread between its two steps, and the ids that were
-- returned, the latest first.
pub record Counter : Type 0 where
  pub next : ℕ
  pub loaded : List (ℕ × ℕ)
  pub returned : List ℕ

-- A step of a thread: `load()` or `fetch_add(1)`.
pub data Step : Type 0 where
  loads adds : (thread : ℕ) → Step

pub start : Counter
start = record { next = 0; loaded = []; returned = [] }

-- `id = load();`
pub load : ℕ → Counter → Counter
load t c = record c { loaded = (t, c.next) ∷ erase t c.loaded }

-- `while (id != fetch_add(1))`: the loop ends where the counter is as it was loaded. A thread that has
-- not loaded is not there yet.
pub fetch_add : ℕ → Counter → Counter
fetch_add t c = elim (find t c.loaded) [
  | none ↦ c
  | some id ↦
      let c' = record c { next = (c.next + 1) % 2 ^ 16; loaded = erase t c.loaded } in
      if id == c.next then record c' { returned = id ∷ c.returned } else c'
]

pub step : Step → Counter → Counter
step (loads t) c = load t c
step (adds t) c = fetch_add t c

-- A schedule, from its first step on.
pub run : List Step → Counter → Counter
run [] c = c
run (s ∷ rest) c = run rest (step s c)
