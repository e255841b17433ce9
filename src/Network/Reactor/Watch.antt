-- ===== src/Network/Reactor/Watch.antt =====
-- The descriptors that the epoll instances of a `TcpServer` watch, against its connections
-- (src/network/tcp_server.cc, group.hpp and demultiplex.cc).
use rproxy.Base.{ℕ, ◌<◌, true, false, ◌≡◌, refl, ap, Option, List, [], ◌∷◌, length, arith, ok}
use rproxy.Base.Eq.{nat_eq}
use rproxy.Base.Maps.{has_key}
use rproxy.Network.Addr.{InetAddr}
use rproxy.Network.Demultiplex.{Demultiplex}
use rproxy.Network.Group.{Group, register_fd, wrap_around}
use rproxy.Network.Reactor.{
  Reactor, Event, accepts, reports, owned, accept_round, wait_round, step, run,
}
use rproxy.Network.Reactor.Rounds.{IsTracked, reports-IsTracked, accepts-IsTracked}

abbrev pub AllNotify : List Demultiplex → Type 0
AllNotify [] = Unit {0}
AllNotify (d ∷ ds) = (d.notify ≡ true) × AllNotify ds

-- There are demultiplexers, the iterator stands before one, and they notify.
pub record IsReady (g : Group) : Type 0 where
  pub all_notify : AllNotify g.dmpes
  pub rest_notify : AllNotify g.iter
  pub some_dmp : 0 < length g.dmpes
  pub some_next : 0 < length g.iter

pub record IsConsistent (r : Reactor) : Type 0 where
  pub ready : IsReady r.group
  pub tracked : IsTracked r.owner r.server

-- What `accept` gives is not open: it has no connection.
abbrev pub Fits : Event → Reactor → Type 0
Fits (accepts fd) r = has_key fd r.server.conn_map ≡ false
Fits (reports d resps) r = Unit {0}

wrap_around-IsReady :
    (g : Group) (d : Demultiplex) (rest : List Demultiplex)
    → IsReady g
    → AllNotify rest
    → IsReady (record g { iter = wrap_around g.dmpes rest })
unfolding wrap_around
wrap_around-IsReady g d [] ready h = record {
  all_notify = ready.all_notify;
  rest_notify = ready.all_notify;
  some_dmp = ready.some_dmp;
  some_next = ready.some_dmp;
}
wrap_around-IsReady g d (e ∷ rest) ready h = record {
  all_notify = ready.all_notify;
  rest_notify = h;
  some_dmp = ready.some_dmp;
  some_next = omega arith;
}

module _ (peer : ℕ → InetAddr) (write : ℕ → List ℕ → Option ℕ) where
  step-IsConsistent :
      (e : Event) (r : Reactor)
      → Fits e r
      → IsConsistent r
      → (r' : Reactor) × (step peer write e r ≡ ok r') × IsConsistent r'
  unfolding step accept_round wait_round register_fd
  step-IsConsistent (reports d resps) r fits good =
      let (sv, run, tracked) = reports-IsTracked peer write r.owner d resps r.server good.tracked in
      (record r { server = sv }, rw run refl, record { ready = good.ready; tracked = tracked })
  step-IsConsistent (accepts fd) r fits good = next r.group.iter refl good.ready.rest_notify
    where
      next :
          (ds : List Demultiplex)
          → r.group.iter ≡ ds
          → AllNotify ds
          → (r' : Reactor) × (step peer write (accepts fd) r ≡ ok r') × IsConsistent r'
      next [] e h = absurd (omega (arith, ap length e, good.ready.some_next))
      next (d ∷ rest) e (told, h) =
          let (sv, run, tracked) =
            accepts-IsTracked peer write r.owner d fd r.server fits told good.tracked in
          (
            record {
              group = record r.group { iter = wrap_around r.group.dmpes rest };
              owner = owned fd d r.owner;
              server = sv;
            },
            rw (e, run) refl,
            record { ready = wrap_around-IsReady r.group d rest good.ready h; tracked = tracked },
          )

  -- What `accept` gives is new in each round.
  abbrev pub AllFit : List Event → Reactor → Type 0
  AllFit [] r = Unit {0}
  AllFit (e ∷ es) r = Fits e r × ((r' : Reactor) → step peer write e r ≡ ok r' → AllFit es r')

  -- A reactor whose demultiplexers notify, and whose connections agree with what its epoll instances
  -- watch, over any rounds of its loops, in which `accept` gives descriptors without a connection and
  -- `epoll_wait` any events: no round faults, and afterwards an epoll instance watches a descriptor
  -- just where the descriptor has a connection whose channel belongs to it. A descriptor was closed
  -- as often as it was registered, less one where it has a connection: no connection that ended leaks
  -- its descriptor, and none closes it twice.
  pub run-IsConsistent :
      (es : List Event) (r : Reactor)
      → AllFit es r
      → IsConsistent r
      → (r' : Reactor) × (run peer write es r ≡ ok r') × IsConsistent r'
  unfolding run
  run-IsConsistent [] r fits good = (r, refl, good)
  run-IsConsistent (e ∷ es) r (fits, later) good =
      let (r₁, now, good₁) = step-IsConsistent e r fits good in
      let (r₂, rest, good₂) = run-IsConsistent es r₁ (later r₁ now) good₁ in
      (r₂, rw (now, rest) refl, good₂)
