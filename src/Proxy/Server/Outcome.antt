-- ===== src/Proxy/Server/Outcome.antt =====
-- How a handler of src/proxy/proxy_server.cc may end.
use rproxy.Base.{ℕ, ◌≡◌, Result, ok, err, ◌>>=◌, Failure, runtime_error, List, [], ◌∷◌, ◌⊎◌}
use rproxy.Network.Addr.{InetAddr}
use rproxy.Proxy.Server.{ProxyServer, Kernel}

-- The call goes well, or throws one of the failures `F`.
abbrev pub Goes :
    {S : Type 0}
    → (Failure → Type 0)
    → (ProxyServer → S → Type 0)
    → Result (ProxyServer × S)
    → Type 0
Goes F P (ok (p, s)) = P p s
Goes F P (err e) = F e

-- A runtime_error, with which the kernel answered an attempt to connect to the address.
abbrev pub Unreached : {S : Type 0} → Kernel S → InetAddr → Failure → Type 0
Unreached {S} k addr e = (e ≡ runtime_error) × ((s : S) × (k.connect addr s ≡ err e))

-- One of the addresses of the batch could not be connected to.
abbrev pub SomeUnreached : {S : Type 0} → Kernel S → List (ℕ × InetAddr) → Failure → Type 0
SomeUnreached k [] e = ⊥
SomeUnreached k ((incoming, addr) ∷ rest) e = Unreached k addr e ⊎ SomeUnreached k rest e

pub Goes-bind :
    {S : Type 0} (F G : Failure → Type 0) (Q P : ProxyServer → S → Type 0)
    (m : Result (ProxyServer × S)) (f : ProxyServer → S → Result (ProxyServer × S))
    → Goes F Q m
    → ((e : Failure) → F e → G e)
    → ((p : ProxyServer) (s : S) → Q p s → Goes G P (f p s))
    → Goes G P (m >>= λ record { 0 = p; 1 = s }. f p s)
Goes-bind F G Q P (ok (p, s)) f q g h = h p s q
Goes-bind F G Q P (err e) f q g h = g e q

pub Goes-weaken :
    {S : Type 0} (F G : Failure → Type 0) (Q P : ProxyServer → S → Type 0)
    (r : Result (ProxyServer × S))
    → ((e : Failure) → F e → G e)
    → ((p : ProxyServer) (s : S) → Q p s → P p s)
    → Goes F Q r
    → Goes G P r
Goes-weaken F G Q P (ok (p, s)) g h q = h p s q
Goes-weaken F G Q P (err e) g h q = g e q
