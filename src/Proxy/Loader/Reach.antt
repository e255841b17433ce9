-- ===== src/Proxy/Loader/Reach.antt =====
-- Which addresses `balancing` of src/proxy/loader.cc makes src/proxy/proxy_server.cc connect to.
use rproxy.Base.{ℕ, ◌≡◌, refl, sym, List, [], ◌∷◌, ok, Failure, ◌⊎◌, inl, inr, Bool-cases}
use mathlib.Core.Path.{subst}
use rproxy.Base.Eq.{nat_eq}
use rproxy.Base.Maps.{has_key, emplace}
use rproxy.Network.Addr.{InetAddr}
use rproxy.Proxy.Loader.{LoadBalancer, Backends, advance, balance_from, balancing}
use rproxy.Proxy.Server.{Kernel}
use rproxy.Proxy.Server.Outcome.{Unreached, SomeUnreached}

module _ {S : Type 0} (k : Kernel S) where
  -- The kernel refused a connection to one of the backends.
  abbrev pub BackendUnreached : Backends → Failure → Type 0
  BackendUnreached [] e = ⊥
  BackendUnreached ((key, addr) ∷ rest) e = Unreached k addr e ⊎ BackendUnreached rest e

  emplace-among :
      (fd : ℕ) (addr : InetAddr) (m : List (ℕ × InetAddr)) (e : Failure)
      → SomeUnreached k (emplace fd addr m) e
      → Unreached k addr e ⊎ SomeUnreached k m e
  unfolding emplace
  emplace-among fd addr m e u = elim (Bool-cases (has_key fd m)) [
    | inl old ↦ inr (rw old at u)
    | inr new ↦ rw new at u
  ]

  advance-among :
      (all iter rest : Backends) (key : List ℕ) (addr : InetAddr) (e : Failure)
      → iter ≡ (key, addr) ∷ rest
      → (BackendUnreached iter e → BackendUnreached all e)
      → BackendUnreached (advance all rest) e
      → BackendUnreached all e
  unfolding advance
  advance-among all iter [] key addr e cut within u = u
  advance-among all iter (b ∷ rest) key addr e cut within u =
      within (subst (λ bs. BackendUnreached bs e) (sym cut) (inr u))

  balance_from-among :
      (all iter : Backends) (socks : List ℕ) (m pairs : List (ℕ × InetAddr)) (e : Failure)
      → balance_from all iter socks m ≡ ok pairs
      → (BackendUnreached iter e → BackendUnreached all e)
      → SomeUnreached k pairs e
      → BackendUnreached all e ⊎ SomeUnreached k m e
  unfolding balance_from
  balance_from-among all iter [] m pairs e run within u =
      let same_map : m ≡ pairs = cc in inr (subst (λ x. SomeUnreached k x e) (sym same_map) u)
  balance_from-among all [] (sock ∷ socks) m pairs e run within u = absurd cc
  balance_from-among all ((key, addr) ∷ rest) (sock ∷ socks) m pairs e run within u =
      elim (balance_from-among all (advance all rest) socks (emplace sock addr m) pairs e run
        (advance-among all ((key, addr) ∷ rest) rest key addr e refl within) u) [
          | inl there ↦ inl there
          | inr before ↦ elim (emplace-among sock addr m e before) [
            | inl this ↦ inl (within (inl this))
            | inr that ↦ inr that
          ]
        ]

  -- An address that `balancing` gave to a socket is the address of a backend.
  pub balancing-among :
      (batch : List ℕ) (lb : LoadBalancer) (pairs : List (ℕ × InetAddr))
      → balancing batch lb ≡ ok pairs
      → (e : Failure) → SomeUnreached k pairs e
      → BackendUnreached lb.backend e
  unfolding balancing
  balancing-among batch lb pairs run e u =
      elim (balance_from-among lb.backend lb.backend batch [] pairs e run (λ x. x) u) [
        | inl among ↦ among
        | inr none_there ↦ absurd none_there
      ]
