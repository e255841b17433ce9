-- ===== src/Proxy/Loader/Queue/Keys.antt =====
-- Whom a context of `loadbalance` (src/proxy/loader.cc) names.
use rproxy.Base.{ℕ, ◌<◌, ◌||◌, ◌≡◌, refl, List, [], ◌∷◌, length, arith, ok}
use rproxy.Base.Eq.{nat_eq, text_eq}
use rproxy.Base.Maps.{find, has_key, emplace, contains, find-emplace}
use rproxy.Network.Addr.{InetAddr}
use rproxy.Pubsub.Event.{Context, forward, forward_ctx}
use rproxy.Proxy.Loader.{LoadBalancer, Backends, advance, balance_from, balancing}
use rproxy.Proxy.Loader.Queue.{run}

-- The context names the sockets of the batch, and no others.
abbrev pub Carries : List ℕ → Context → Type 0
Carries batch ctx =
    (pairs : List (ℕ × InetAddr)) × (ctx
      ≡ record { event_type = forward; body = forward_ctx pairs })
    × ((fd : ℕ) → has_key fd pairs ≡ contains fd batch)

advance_some : (all xs : Backends) → 0 < length all → 0 < length (advance all xs)
unfolding advance
advance_some all [] h = h
advance_some all (x ∷ xs) h = omega arith

-- Whatever sockets a batch has, each gets an entry, and no other does.
balance_from-keys :
    (all iter : Backends) (socks : List ℕ) (m : List (ℕ × InetAddr))
    → 0 < length all
    → 0 < length iter
    → (r : List (ℕ × InetAddr)) × (balance_from all iter socks m ≡ ok r)
      × ((fd : ℕ) → has_key fd r ≡ (has_key fd m || contains fd socks))
unfolding balance_from has_key contains
balance_from-keys all iter [] m h i = (m, refl, λ fd. ground arith)
balance_from-keys all [] (s ∷ ss) m h i = absurd (omega arith)
balance_from-keys all ((k, a) ∷ rest) (s ∷ ss) m h i =
    let (r, run, keys) =
      balance_from-keys all (advance all rest) ss (emplace s a m) h (advance_some all rest h) in
    (r, run, λ fd. ground (arith, keys fd, nat_eq.beq_iff s fd, find-emplace s fd a m))

pub balancing-Carries :
    (batch : List ℕ) (lb : LoadBalancer)
    → 0 < length lb.backend
    → (pairs : List (ℕ × InetAddr)) × (balancing batch lb ≡ ok pairs)
      × ((fd : ℕ) → has_key fd pairs ≡ contains fd batch)
unfolding balancing has_key find
balancing-Carries batch lb h = balance_from-keys lb.backend lb.backend batch [] h h
