-- ===== src/Lifetime/Wiring.antt =====
-- How the balancer comes to hear of the TCP server, and the proxy server of the balancer: the
-- constructor of src/proxy/loader.cc, and the calls of `subscribe` of the parts.
use rproxy.Base.{
  ℕ, Bool, true, false, ◌≡◌, refl, sym, ap₂, ◌∙◌, ==_cases, inl, inr, List, [], ◌∷◌, arith, Result,
  ok, ◌>>=◌,
}
use mathlib.Core.Path.{subst}
use rproxy.Base.Eq.{same, same_refl, nat_eq}
use rproxy.Base.Maps.{contains, has_key}
use rproxy.Pubsub.Event.{PubType, balance, forward, pub_type_eq}
use rproxy.Pubsub.Center.{Center, receivers}
use rproxy.Pubsub.Center.Invariant.{Distinct, choose}
use rproxy.Network.Socket.{Calls}
use rproxy.Network.Socket.Granted.{Grants}
use rproxy.Lifetime.{Given, Parts, is_empty, open_server, open_balancer, subscribe_to}
use rproxy.Lifetime.Group.{AllGranted, among_given}
use rproxy.Lifetime.Server.{open_server-Wires}
use rproxy.Lifetime.View.{View, register_pub-View, subscribe-View}

-- A set is known by what it contains.
none_contained : (xs : List ℕ) → ((x : ℕ) → contains x xs ≡ false) → xs ≡ []
unfolding contains
none_contained [] h = refl
none_contained (x ∷ xs) h = absurd (ground (arith, h x, same_refl x))

one_contained :
    (s : ℕ) (xs : List ℕ) → Distinct xs → ((x : ℕ) → contains x xs ≡ same s x) → xs ≡ s ∷ []
unfolding contains
one_contained s [] d h = absurd (ground (arith, h s, same_refl s))
one_contained s (x ∷ xs) d h =
    let first : s ≡ x = ground (arith, h x, same_refl x, nat_eq.beq_iff s x) in
    let rest : xs ≡ [] = none_contained xs (λ y. elim (==_cases x y) [
      | inl here ↦ subst (λ n. contains n xs ≡ false) here d.0
      | inr there ↦ ground (arith, h y, nat_eq.beq_iff x y, nat_eq.beq_iff s y, there, first)
    ]) in
    ap₂ (λ y ys. y ∷ ys) (sym first) rest

module _ {c : Center} {knows : ℕ → Bool} {told : ℕ → PubType → ℕ → Bool}
    (v : View c knows told) where
  receivers-Distinct : (i : ℕ) (t : PubType) → Distinct (receivers i t c)
  unfolding receivers
  receivers-Distinct i t =
      choose (λ xs. Distinct xs) (has_key i c.publishers) (v.valid.unique i t) tt

  told_one : (i s : ℕ) (t : PubType) → ((x : ℕ) → told i t x ≡ same s x) → receivers i t c ≡ s ∷ []
  told_one i s t h =
      one_contained s (receivers i t c) (receivers-Distinct i t) (λ x. v.tells i t x ∙ h x)

module _ {S : Type 0} (k : Calls S) {knows : ℕ → Bool} {told : ℕ → PubType → ℕ → Bool} {c : Center}
    (v : View c knows told) where
  -- A TCP server and a balancer are made, and then the balancer subscribes to the server and the proxy
  -- server to the balancer. What the center has afterwards of the two events.
  abbrev pub Hears : ℕ → ℕ → ℕ → ℕ → Result (Parts × S × Center) → Type 0
  Hears server_pub balancer_pub balancer proxy r =
      (ps : Parts) × (s₁ : S) × (c₁ : Center) × (r ≡ ok (ps, s₁, c₁))
      × (c₂ : Center) × (open_balancer balancer_pub balancer c₁
            >>= subscribe_to server_pub balance balancer
            >>= subscribe_to balancer_pub forward proxy
          ≡ ok c₂)
      × (receivers server_pub balance c₂ ≡ balancer ∷ [])
      × (receivers balancer_pub forward c₂ ≡ proxy ∷ [])

  -- The counters of tcp_server.cc, demultiplex.cc and loader.cc are different variables, all from 0, so
  -- that the TCP server, which registers itself nowhere, may have the identity of one of its
  -- demultiplexers, and the balancer any identity that is in use. Where nobody is told of BALANCE and
  -- FORWARD events before, the kernel refuses nothing, and the TCP server has the identity of one of
  -- its demultiplexers: the constructors and the two calls of `subscribe` succeed, the balancer alone
  -- is told of the BALANCE events of the TCP server's identity, and the proxy server alone of the
  -- FORWARD events of the balancer's.
  pub open_server-Hears :
      Grants k
      → (ip port : List ℕ) (acceptor acceptor_this : ℕ) (ms : List Given) (this : ℕ) (s : S)
      → is_empty ms ≡ false
      → AllGranted ms
      → (server_pub balancer_pub balancer proxy : ℕ) → among_given server_pub ms ≡ true
      → ((i x : ℕ) → told i balance x ≡ false)
      → ((i x : ℕ) → told i forward x ≡ false)
      → Hears server_pub balancer_pub balancer proxy
          (open_server k ip port acceptor acceptor_this ms this s c)
  unfolding open_balancer subscribe_to
  open_server-Hears grants ip port acceptor acceptor_this ms this s some_ms given server_pub
        balancer_pub balancer proxy shared quiet silent =
      let (ps, s₁, c₁, made, v₁, own, unset, ids) =
        open_server-Wires k v grants ip port acceptor acceptor_this ms this s some_ms given in
      let (c₂, second, v₂) = register_pub-View v₁ balancer_pub balancer in
      let (c₃, third, v₃) = subscribe-View v₂ server_pub balancer balance in
      let (c₄, fourth, v₄) = subscribe-View v₃ balancer_pub proxy forward in
      (
        ps,
        s₁,
        c₁,
        made,
        c₄,
        rw (second, third, fourth) refl,
        told_one v₄ server_pub balancer balance
            (λ x. ground (arith, same_refl server_pub, shared, quiet server_pub x)),
        told_one v₄ balancer_pub proxy forward
            (λ x. ground (arith, same_refl balancer_pub, silent balancer_pub x)),
      )
