-- ===== src/Flow/Batch.antt =====
-- The batch that src/network/tcp_server.cc hands on, as src/proxy/loader.cc shares it out.
use rproxy.Base.{
  ℕ, zero, suc, ◌<◌, ◌%◌, true, false, ◌&&◌, ◌≡◌, refl, ap, ◌∙◌, some, List, [], ◌∷◌, length,
  get_elem?, arith, ok, Bool-cases, inl, inr,
}
use rproxy.Base.Eq.{nat_eq, same}
use rproxy.Base.Maps.{find, contains, has_key}
use rproxy.Network.Addr.{InetAddr}
use rproxy.Network.Connection.{TcpConnection}
use rproxy.Network.Server.Wait.{AreDistinct, handed_on, hands_on, descriptors}
use rproxy.Pubsub.Event.{Resp}
use rproxy.Proxy.Loader.{LoadBalancer, balancing}
use rproxy.Proxy.Loader.Rotation.{Distinct, addr_at, entry_at, balancing-Rotates}

not-contains-handed_on :
    (fd : ℕ) (m : List (ℕ × TcpConnection)) (resps : List Resp)
    → contains fd (descriptors resps) ≡ false
    → contains fd (handed_on m resps) ≡ false
unfolding contains
not-contains-handed_on fd m [] h = refl
not-contains-handed_on fd m (r ∷ rest) h = ground (arith, not-contains-handed_on fd m rest)

pub handed_on-Distinct :
    (m : List (ℕ × TcpConnection)) (resps : List Resp)
    → AreDistinct resps
    → Distinct (handed_on m resps)
handed_on-Distinct m [] d = tt
handed_on-Distinct m (r ∷ rest) d = elim (Bool-cases (has_key r.fd m && hands_on r)) [
  | inl goes ↦ rw goes (not-contains-handed_on r.fd m rest d.0, handed_on-Distinct m rest d.1)
  | inr stays ↦ rw stays (handed_on-Distinct m rest d.1)
]

place_of :
    (fd : ℕ) (socks : List ℕ) → contains fd socks ≡ true → (i : ℕ) × (get_elem? socks i ≡ some fd)
unfolding contains
place_of fd [] h = absurd cc
place_of fd (s ∷ ss) h = elim (Bool-cases (same s fd)) [
  | inl here ↦ (zero, ap some ((nat_eq.beq_iff s fd).0 here))
  | inr there ↦ let (i, e) = place_of fd ss (ground (arith, there)) in (suc i, e)
]

-- Where there is a backend, each socket of a batch of different ones gets one.
pub balancing_all :
    (lb : LoadBalancer) (socks : List ℕ)
    → 0 < length lb.backend
    → Distinct socks
    → (pairs : List (ℕ × InetAddr)) × (balancing socks lb ≡ ok pairs)
      × ((fd : ℕ) → contains fd socks ≡ true → (addr : InetAddr) × (find fd pairs ≡ some addr))
balancing_all lb socks h d =
    let (pairs, run, places) = balancing-Rotates lb socks h d in
    (
      pairs,
      run,
      λ fd member.
          let (i, at_i) = place_of fd socks member in
          let (key, addr, cut, found) = entry_at (i % length lb.backend) lb.backend (omega arith) in
          (
            addr,
            places i fd at_i
                ∙ ap (λ p. addr_at lb.backend (p % length lb.backend)) (omega arith)
                ∙ found,
          ),
    )
