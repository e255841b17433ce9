-- ===== src/Proxy/Loader/Queue/Forwards.antt =====
-- What `loadbalance` (src/proxy/loader.cc) hands to its subscribers.
use rproxy.Base.{ℕ, ◌<◌, ◌≡◌, List, [], ◌∷◌, ◌++◌, length, if◌then◌else◌, ok}
use rproxy.Base.Eq.{nat_eq, text_eq}
use rproxy.Base.Maps.{has_key, emplace, erase}
use rproxy.Network.Addr.{to_string}
use rproxy.Pubsub.Event.{Context}
use rproxy.Proxy.Loader.{Backends}
use rproxy.Proxy.Loader.Queue.{Balancing, Event, publishes, adds, removes, step}
use rproxy.Proxy.Loader.Queue.Keys.{Carries}

-- The batch that is published by an event, and the backends that it leaves.
abbrev pub published_by : List Event → List (List ℕ)
published_by [] = []
published_by (publishes sockes ∷ es) = sockes ∷ published_by es
published_by (e ∷ es) = published_by es

abbrev pub backends_after : Event → Backends → Backends
backends_after (adds addr check_port) b = emplace (to_string addr) addr b
backends_after (removes addr) b = if has_key (to_string addr) b then erase (to_string addr) b else b
backends_after e b = b

-- There is always a backend.
abbrev pub AllBacked : List Event → Backends → Type 0
AllBacked [] b = 0 < length b
AllBacked (e ∷ es) b = (0 < length b) × AllBacked es (backends_after e b)

abbrev pub AllCarried : List (List ℕ) → List Context → Type 0
AllCarried [] [] = Unit {0}
AllCarried (batch ∷ rest) (ctx ∷ ctxs) = Carries batch ctx × AllCarried rest ctxs
AllCarried [] (ctx ∷ ctxs) = ⊥
AllCarried (batch ∷ rest) [] = ⊥

-- The call goes well. Of the batches that waited and were published, in order, the first ones were
-- handed on, a context for each, and the others wait.
abbrev pub Hands : Balancing → List (List ℕ) → Balancing → Type 0
Hands g published g' =
    (batches : List (List ℕ)) × (ctxs : List Context) × (batches ++ g'.balancer.sock_queue
      ≡ g.balancer.sock_queue ++ published)
    × (g'.forwarded ≡ g.forwarded ++ ctxs)
    × AllCarried batches ctxs

-- What a step does, the backends that it leaves included.
abbrev Steps : Event → Balancing → Type 0
Steps e g =
    (g' : Balancing) × (step e g ≡ ok g')
    × Hands g (published_by (e ∷ [])) g'
    × (g'.balancer.backend ≡ backends_after e g.balancer.backend)

all_backed : (es : List Event) (b : Backends) → AllBacked es b → 0 < length b
all_backed [] b h = h
all_backed (e ∷ es) b h = h.0
