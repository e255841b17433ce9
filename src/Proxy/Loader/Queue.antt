-- ===== src/Proxy/Loader/Queue.antt =====
-- The thread of `loadbalance` (src/proxy/loader.cc) with the calls of the other threads: each call that
-- takes the lock is one step, and so is each test of the thread; the steps come in any order.
pub mod Keys
pub mod Forwards
pub mod Stop
mod Tests
use rproxy.Base.{ℕ, none, some, List, [], ◌∷◌, ◌++◌, if◌then◌else◌, Result, ok, ◌>>=◌}
use rproxy.Network.Addr.{InetAddr}
use rproxy.Pubsub.Event.{Context}
use rproxy.Proxy.Loader.{
  LoadBalancer, add_backend, remove_backend, update_for_loadbalance, stop, loadbalance_round,
}

-- Before `stop_` is read, in the loop that waits for a batch, and behind the outer loop.
pub data Place : Type 0 where
  at_test at_wait at_end : Place

-- `forwarded` is what was handed to the subscribers so far.
pub record Balancing : Type 0 where
  pub balancer : LoadBalancer
  pub place : Place
  pub forwarded : List Context

pub data Event : Type 0 where
  publishes : List ℕ → Event
  adds : InetAddr → ℕ → Event
  removes : InetAddr → Event
  stops : Event
  runs : Event

-- The thread of `loadbalance`.
unfoldable pub run_thread : Balancing → Result Balancing
run_thread g = elim g.place [
  | at_test ↦ ok (record g { place = if g.balancer.stopped then at_end else at_wait })
  | at_wait ↦ elim (loadbalance_round g.balancer) [
    | none ↦ ok g
    | some round ↦ round >>= λ record { 0 = lb; 1 = ctx }.
        ok (record { balancer = lb; place = at_test; forwarded = g.forwarded ++ (ctx ∷ []) })
  ]
  | at_end ↦ ok g
]

unfoldable pub step : Event → Balancing → Result Balancing
step (publishes sockes) g = ok (record g { balancer = update_for_loadbalance sockes g.balancer })
step (adds addr check_port) g = ok (record g { balancer = add_backend addr check_port g.balancer })
step (removes addr) g = ok (record g { balancer = remove_backend addr g.balancer })
step stops g = ok (record g { balancer = stop g.balancer })
step runs g = run_thread g

unfoldable pub run : List Event → Balancing → Result Balancing
run [] g = ok g
run (e ∷ es) g = step e g >>= λ g'. run es g'
