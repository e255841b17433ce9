-- ===== src/Proxy/Loader/Spread.antt =====
-- How evenly `balancing` of src/proxy/loader.cc spreads a batch over the backends.
use rproxy.Base.{
  ℕ, zero, suc, ◌+◌, ◌%◌, ◌/◌, ◌≤◌, ◌<◌, ◌≡◌, refl, ap, ◌∙◌, Option, none, some, List, [], ◌∷◌,
  length, get_elem?, add-zero, arith, ltb, ◌==◌, if◌then◌else◌, ok, Bool-cases, inl, inr, ltb→lt,
  not-ltb,
}
use rproxy.Base.Eq.{nat_eq}
use rproxy.Network.Addr.Injective.{equal_iff}
use rproxy.Base.Maps.{find}
use rproxy.Network.Addr.{InetAddr, equal}
use rproxy.Proxy.Loader.{LoadBalancer, Backends, balancing}
use rproxy.Proxy.Loader.Keys.{Keyed, addr_at-injective}
use rproxy.Proxy.Loader.Rotation.{addr_at, Distinct, balancing-Rotates}

-- Of the numbers below `x`, how many are `j` modulo `n`.
below_count : ℕ → ℕ → ℕ → ℕ
below_count n j x = x / n + (if ltb j (x % n) then 1 else 0)

next_low : (n p : ℕ) → suc (p % n) < n → (suc p / n ≡ p / n) × (suc p % n ≡ suc (p % n))
next_low n p h = grind arith

next_high : (n p : ℕ) → 0 < n → n ≤ suc (p % n) → (suc p / n ≡ suc (p / n)) × (suc p % n ≡ 0)
next_high n p h k = grind arith

below_count-suc :
    (n j p : ℕ)
    → j < n
    → below_count n j p + (if (p % n) == j then 1 else 0) ≡ below_count n j (suc p)
unfolding below_count
below_count-suc n j p h = elim (Bool-cases (ltb (suc (p % n)) n)) [
  | inl low ↦ ground (arith, next_low n p (ltb→lt _ _ low))
  | inr high ↦ ground (arith, next_high n p (omega arith) (not-ltb _ _ high))
]

-- The sockets of a batch that are sent to the address `a`.
abbrev pub is_at : InetAddr → Option InetAddr → ℕ
is_at a none = 0
is_at a (some b) = if equal a b then 1 else 0

abbrev pub count_to : InetAddr → List (ℕ × InetAddr) → List ℕ → ℕ
count_to a r [] = 0
count_to a r (s ∷ ss) = is_at a (find s r) + count_to a r ss

is_at_cases :
    (all : Backends) (a : InetAddr) (i j : ℕ) (o : Option InetAddr)
    → Keyed all
    → addr_at all j ≡ some a
    → addr_at all i ≡ o
    → is_at a o ≡ (if i == j then 1 else 0)
is_at_cases all a i j none d h e = ground arith
is_at_cases all a i j (some b) d h e = ground (arith, equal_iff a b, addr_at-injective all i j a d)

count_to-below_count :
    (all : Backends) (a : InetAddr) (j : ℕ) (r : List (ℕ × InetAddr)) (socks : List ℕ) (p : ℕ)
    → Keyed all
    → j < length all
    → addr_at all j ≡ some a
    → ((k s : ℕ) → get_elem? socks k ≡ some s → find s r ≡ addr_at all ((p + k) % length all))
    → below_count (length all) j p + count_to a r socks
      ≡ below_count (length all) j (p + length socks)
count_to-below_count all a j r [] p d h e places =
    omega (arith, ap (below_count (length all) j) (add-zero p))
count_to-below_count all a j r (s ∷ ss) p d h e places = omega (
  arith,
  here,
  below_count-suc (length all) j p h,
  count_to-below_count all a j r ss (suc p) d h e later,
  ap (below_count (length all) j) shift,
)
  where
    here : is_at a (find s r) ≡ (if (p % length all) == j then 1 else 0)
    here =
        ap (is_at a) (places 0 s refl ∙ ap (λ q. addr_at all (q % length all)) (add-zero p))
        ∙ is_at_cases all a (p % length all) j (addr_at all (p % length all)) d e refl

    later : (k x : ℕ) → get_elem? ss k ≡ some x → find x r ≡ addr_at all ((suc p + k) % length all)
    later k x q = places (suc k) x q ∙ ap (λ n. addr_at all (n % length all)) (omega arith)

    shift : suc p + length ss ≡ p + suc (length ss)
    shift = omega arith

below_count-zero : (n j : ℕ) → 0 < n → below_count n j 0 ≡ 0
unfolding below_count
below_count-zero n j h = ground arith

count_to-all :
    (all : Backends) (a : InetAddr) (j : ℕ) (r : List (ℕ × InetAddr)) (socks : List ℕ)
    → Keyed all
    → j < length all
    → addr_at all j ≡ some a
    → ((k s : ℕ) → get_elem? socks k ≡ some s → find s r ≡ addr_at all ((0 + k) % length all))
    → count_to a r socks ≡ below_count (length all) j (length socks)
count_to-all all a j r socks d h e places = omega (
  arith,
  count_to-below_count all a j r socks 0 d h e places,
  below_count-zero (length all) j (omega arith),
  ap (below_count (length all) j) shift,
)
  where
    shift : 0 + length socks ≡ length socks
    shift = omega arith

addr_at-lt : (all : Backends) (j : ℕ) (a : InetAddr) → addr_at all j ≡ some a → j < length all
addr_at-lt [] j a e = cc
addr_at-lt ((k, b) ∷ all) zero a e = omega arith
addr_at-lt ((k, b) ∷ all) (suc j) a e = omega (arith, addr_at-lt all j a e)

-- Of a batch of `l` different sockets over `n` backends, the backend at place `j` gets `l / n`, and
-- one more if `j < l % n`: no two backends differ by more than one, and the places at the front of the
-- map get the rest of every batch.
pub balancing_spread :
    (lb : LoadBalancer) (socks : List ℕ) (j : ℕ) (a : InetAddr)
    → Distinct socks
    → Keyed lb.backend
    → addr_at lb.backend j ≡ some a
    → (r : List (ℕ × InetAddr)) × (balancing socks lb ≡ ok r)
      × (count_to a r socks
          ≡ length socks / length lb.backend
            + (if ltb j (length socks % length lb.backend) then 1 else 0))
unfolding below_count
balancing_spread lb socks j a distinct d e =
    let h = addr_at-lt lb.backend j a e in
    let (r, run, places) = balancing-Rotates lb socks (omega arith) distinct in
    (r, run, count_to-all lb.backend a j r socks d h e places)
