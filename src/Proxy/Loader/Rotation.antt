-- ===== src/Proxy/Loader/Rotation.antt =====
-- `balancing` of src/proxy/loader.cc: which backend each socket of a batch gets.
use rproxy.Base.{
  ℕ, zero, suc, ◌+◌, ◌%◌, ◌<◌, true, false, ◌≡◌, refl, ap, sym, ◌∙◌, Option, none, some, List, [],
  ◌∷◌, length, length-drop, drop, drop_all, ltb→lt, not-ltb, get_elem?, add-zero, arith, ltb,
  Result, ok, Bool-cases, inl, inr,
}
use native.Mathlib.Nat.{mod-eq_of_lt, mod-add-mod}
use rproxy.Base.Eq.{nat_eq, text_eq}
use rproxy.Base.Maps.{find, has_key, emplace, find-emplace, contains}
use rproxy.Network.Addr.{InetAddr}
use rproxy.Proxy.Loader.{LoadBalancer, Backends, balance_from, advance, balancing}

-- The address that stands at place `i` of the map.
abbrev pub addr_at : Backends → ℕ → Option InetAddr
addr_at [] i = none
addr_at ((k, a) ∷ m) zero = some a
addr_at ((k, a) ∷ m) (suc i) = addr_at m i

-- No socket is twice in a batch.
abbrev pub Distinct : List ℕ → Type 0
Distinct [] = Unit {0}
Distinct (x ∷ xs) = (contains x xs ≡ false) × Distinct xs

-- Entries that a batch does not name stay.
find-balance_from_other :
    (all iter : Backends) (socks : List ℕ) (m : List (ℕ × InetAddr)) (x : ℕ)
    (r : List (ℕ × InetAddr))
    → contains x socks ≡ false
    → balance_from all iter socks m ≡ ok r
    → find x r ≡ find x m
unfolding balance_from contains
find-balance_from_other all iter [] m x r h e = ground arith
find-balance_from_other all [] (s ∷ ss) m x r h e = cc
find-balance_from_other all ((k, a) ∷ rest) (s ∷ ss) m x r h e = ground (
  arith,
  find-balance_from_other all (advance all rest) ss (emplace s a m) x r,
  find-emplace s x a m,
)

-- The entry that an iterator inside the map points at.
pub entry_at :
    (p : ℕ) (all : Backends)
    → p < length all
    → (k : List ℕ) × (a : InetAddr) × (drop p all ≡ (k, a) ∷ drop (suc p) all)
      × (addr_at all p ≡ some a)
entry_at p [] h = absurd (omega arith)
entry_at zero ((k, a) ∷ all) h = (k, a, refl, refl)
entry_at (suc p) ((j, b) ∷ all) h = entry_at p all (omega arith)

advance-cons : (all xs : Backends) → 0 < length xs → advance all xs ≡ xs
unfolding advance
advance-cons all [] h = absurd (omega arith)
advance-cons all (x ∷ xs) h = refl

-- The iterator goes on to the next place, and from the last place to the first.
advance-drop :
    (p : ℕ) (all : Backends)
    → p < length all
    → advance all (drop (suc p) all) ≡ drop (suc p % length all) all
unfolding advance
advance-drop p all h = elim (Bool-cases (ltb (suc p) (length all))) [
  | inl more ↦
      advance-cons all (drop (suc p) all)
        (omega (arith, length-drop {0} (suc p) all, ltb→lt _ _ more))
      ∙ ap (λ q. drop q all) (sym (mod-eq_of_lt (ltb→lt _ _ more)))
  | inr last ↦
      ap (advance all) (drop_all (suc p) all (not-ltb _ _ last))
      ∙ ap (λ q. drop q all) (sym (wraps (omega (arith, not-ltb _ _ last))))
]
  where
    wraps : suc p ≡ length all → suc p % length all ≡ 0
    wraps e = rw e (grind arith)

-- The sockets of a batch have no entry yet.
abbrev Fresh : List ℕ → List (ℕ × InetAddr) → Type 0
Fresh socks m = (x : ℕ) → contains x socks ≡ true → has_key x m ≡ false

abbrev pub Rotates : Backends → ℕ → List ℕ → Result (List (ℕ × InetAddr)) → Type 0
Rotates all p socks res =
    (r : List (ℕ × InetAddr)) × (res ≡ ok r)
    × ((k s : ℕ) → get_elem? socks k ≡ some s → find s r ≡ addr_at all ((p + k) % length all))

some_inj : {x y : ℕ} → some x ≡ some y → x ≡ y
some_inj e = ground arith

places :
    (all : Backends) (r : List (ℕ × InetAddr)) (a : InetAddr) (s : ℕ) (ss : List ℕ) (p : ℕ)
    → p < length all
    → addr_at all p ≡ some a
    → find s r ≡ some a
    → ((k x : ℕ)
        → get_elem? ss k ≡ some x
        → find x r ≡ addr_at all ((suc p % length all + k) % length all))
    → (k x : ℕ) → get_elem? (s ∷ ss) k ≡ some x
    → find x r ≡ addr_at all ((p + k) % length all)
places all r a s ss p h found first later zero x e =
    ap (λ y. find y r) (sym (some_inj e))
    ∙ first
    ∙ sym found
    ∙ ap (addr_at all) (sym (mod-eq_of_lt h) ∙ ap (λ q. q % length all) (sym (add-zero p)))
places all r a s ss p h found first later (suc k) x e =
    later k x e
    ∙ ap (addr_at all) (mod-add-mod (suc p) (length all) k ∙ ap (λ q. q % length all) (omega arith))

balance_from-Rotates :
    (all : Backends) (socks : List ℕ) (p : ℕ) (m : List (ℕ × InetAddr))
    → p < length all
    → Distinct socks
    → Fresh socks m
    → Rotates all p socks (balance_from all (drop p all) socks m)
unfolding balance_from contains has_key
balance_from-Rotates all [] p m h d f = (m, refl, λ k s e. cc)
balance_from-Rotates all (s ∷ ss) p m h d f =
    let (key, a, cut, found) = entry_at p all h in
    let q = suc p % length all in
    let m' = emplace s a m in
    let (r, run, later) =
      balance_from-Rotates all ss q m' (omega arith) d.1
        (λ x e. ground (arith, f x, d.0, find-emplace s x a m)) in
    let first : find s r ≡ some a = ground (
      arith,
      find-balance_from_other all (drop q all) ss m' s r d.0 run,
      find-emplace s s a m,
      f s,
    ) in
    (r, rw (cut, advance-drop p all h) run, places all r a s ss p h found first later)

-- A batch of different sockets is shared out in turn: the socket at place `k` gets the backend at
-- place `k` modulo their number, in the map's order of iteration. Every socket gets one, and the call
-- fails only where there is no backend.
pub balancing-Rotates :
    (lb : LoadBalancer) (socks : List ℕ)
    → 0 < length lb.backend
    → Distinct socks
    → Rotates lb.backend 0 socks (balancing socks lb)
unfolding balancing has_key find
balancing-Rotates lb socks h d = balance_from-Rotates lb.backend socks 0 [] h d (λ x e. refl)
