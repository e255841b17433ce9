-- ===== src/Proxy/Loader/Keys.antt =====
-- The keys of the backends in src/proxy/loader.cc: each backend stands under the text of its address.
use rproxy.Base.{ℕ, zero, suc, true, false, ◌≡◌, refl, ap, some, List, [], ◌∷◌, arith}
use rproxy.Base.Eq.{text_eq, list_beq_iff}
use rproxy.Base.Maps.{find, has_key, emplace, erase, find-erase}
use rproxy.Network.Addr.{InetAddr, to_string}
use rproxy.Proxy.Loader.{Backends, LoadBalancer, add_backend, remove_backend}
use rproxy.Proxy.Loader.Rotation.{addr_at}

abbrev pub Keyed : Backends → Type 0
Keyed [] = Unit {0}
Keyed ((k, a) ∷ m) = (k ≡ to_string a) × (has_key k m ≡ false) × Keyed m

erase-Keyed : (key : List ℕ) (m : Backends) → Keyed m → Keyed (erase key m)
unfolding erase has_key
erase-Keyed key [] v = tt
erase-Keyed key ((k, a) ∷ m) v =
    ground
      (arith, erase-Keyed key m v.2, find-erase key k m, list_beq_iff key k, list_beq_iff k key)

-- Every change of the list of backends keeps each backend under the text of its address, once.
pub backend-Keyed :
    (addr : InetAddr) (check_port : ℕ) (lb : LoadBalancer)
    → Keyed lb.backend
    → Keyed (add_backend addr check_port lb).backend × Keyed (remove_backend addr lb).backend
unfolding add_backend remove_backend emplace
backend-Keyed addr check_port lb v =
    (ground arith, ground (arith, erase-Keyed (to_string addr) lb.backend v))

addr_at-has_key :
    (m : Backends) (i : ℕ) (a : InetAddr)
    → Keyed m
    → addr_at m i ≡ some a
    → has_key (to_string a) m ≡ true
unfolding has_key find
addr_at-has_key [] i a v e = cc
addr_at-has_key ((k, b) ∷ m) zero a v e = ground (arith, list_beq_iff k (to_string a))
addr_at-has_key ((k, b) ∷ m) (suc i) a v e = ground (arith, addr_at-has_key m i a v.2 e)

-- So no address stands at two places.
pub addr_at-injective :
    (m : Backends) (i j : ℕ) (a : InetAddr)
    → Keyed m
    → addr_at m i ≡ some a
    → addr_at m j ≡ some a
    → i ≡ j
addr_at-injective [] i j a v e f = cc
addr_at-injective ((k, b) ∷ m) zero zero a v e f = refl
addr_at-injective ((k, b) ∷ m) zero (suc j) a v e f = ground (arith, addr_at-has_key m j a v.2 f)
addr_at-injective ((k, b) ∷ m) (suc i) zero a v e f = ground (arith, addr_at-has_key m i a v.2 e)
addr_at-injective ((k, b) ∷ m) (suc i) (suc j) a v e f = ap suc (addr_at-injective m i j a v.2 e f)
