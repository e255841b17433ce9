-- ===== src/Network/Reactor.antt =====
-- A `TcpServer` with its loops, src/network/eventloop.cc, group.hpp and tcp_server.cc: what `accept`
-- gives goes to a demultiplexer of the group, and each demultiplexer's thread hands on what
-- `epoll_wait` gives. The server is subscribed to all of them, so that what they notify reaches it at
-- once.
pub mod Heard
pub mod Ends
pub mod Rounds
pub mod Watch
pub mod Race
mod Tests
use rproxy.Base.{ℕ, true, Option, List, [], ◌∷◌, if◌then◌else◌, Result, ok, err, ◌>>=◌, undefined}
use rproxy.Base.Eq.{nat_eq, same}
use rproxy.Network.Addr.{InetAddr}
use rproxy.Network.Demultiplex.{Demultiplex, Effect, notifies, demultiplex_wait}
use rproxy.Network.Group.{Group, register_fd}
use rproxy.Network.Server.{TcpServer, add_effects, update}
use rproxy.Pubsub.Event.{Resp}

-- `owner` is the demultiplexer of the channel of each descriptor.
pub record Reactor : Type 0 where
  pub group : Group
  pub owner : ℕ → Demultiplex
  pub server : TcpServer

pub data Event : Type 0 where
  accepts : (fd : ℕ) → Event
  reports : Demultiplex → List Resp → Event

unfoldable pub owned : ℕ → Demultiplex → (ℕ → Demultiplex) → ℕ → Demultiplex
owned fd d owner j = if same fd j then d else owner j

module _ (peer : ℕ → InetAddr) (write : ℕ → List ℕ → Option ℕ) where
  -- What a demultiplexer does: the server handles what it notifies, and the rest is for the kernel.
  unfoldable pub deliver : (ℕ → Demultiplex) → List Effect → TcpServer → Result TcpServer
  deliver owner [] sv = ok sv
  deliver owner (notifies id t ctx ∷ es) sv =
      update owner peer write ctx sv >>= λ sv'. deliver owner es sv'
  deliver owner (e ∷ es) sv = deliver owner es (add_effects (e ∷ []) sv)

  -- A round of `EventLoop::loop`, for what `accept` gave.
  unfoldable pub accept_round : ℕ → Reactor → Result Reactor
  accept_round fd r = elim r.group.iter [
    | [] ↦ err undefined
    | d ∷ rest ↦ (do
      (group, es) ← register_fd fd r.group
      sv ← deliver (owned fd d r.owner) es r.server
      ok (record { group = group; owner = owned fd d r.owner; server = sv }))
  ]

  -- A round of `LoopThreadGroup::run`, whose group is made with `notify_` true, for what `epoll_wait`
  -- gave.
  unfoldable pub wait_round : Demultiplex → List Resp → Reactor → Result Reactor
  wait_round d resps r = deliver r.owner (demultiplex_wait resps true d) r.server >>= λ sv.
      ok (record r { server = sv })

  unfoldable pub step : Event → Reactor → Result Reactor
  step (accepts fd) r = accept_round fd r
  step (reports d resps) r = wait_round d resps r

  unfoldable pub run : List Event → Reactor → Result Reactor
  run [] r = ok r
  run (e ∷ es) r = step e r >>= λ r'. run es r'
