-- ===== src/Lifetime/Group.antt =====
-- The demultiplexers of a `LoopThreadGroup` (src/network/group.hpp) at the center: together they come,
-- are subscribed to, and go.
use rproxy.Base.{ℕ, Bool, true, false, ◌≡◌, refl, not, ◌&&◌, ◌||◌, some, List, [], ◌∷◌, arith, ok}
use rproxy.Base.Eq.{same, nat_eq}
use rproxy.Base.Maps.{contains}
use rproxy.Network.Demultiplex.{Demultiplex}
use rproxy.Pubsub.Event.{PubType, pub_type_eq}
use rproxy.Pubsub.Center.{Center}
use rproxy.Lifetime.{
  Given, open_demultiplex, open_all, close_all, subscribe_each, un_subscribe_each, subscribe_all,
  un_subscribe_all,
}
use rproxy.Lifetime.View.{
  View, View-weaken, register_pub-View, un_register_pub-View, subscribe-View, un_subscribe-View,
}

-- The identity belongs to one of them.
abbrev pub among : ℕ → List Demultiplex → Bool
among i [] = false
among i (d ∷ ds) = same d.id i || among i ds

-- The identity is given to one of them.
abbrev pub among_given : ℕ → List Given → Bool
among_given i [] = false
among_given i (m ∷ ms) = same m.id i || among_given i ms

-- `epoll_create` succeeds for each of them.
abbrev pub AllGranted : List Given → Type 0
AllGranted [] = Unit {0}
AllGranted (m ∷ ms) = ((fd : ℕ) × (m.epoll ≡ some fd)) × AllGranted ms

-- Who is told, once `this` is subscribed to the events `ts` of those, and once it is no longer.
abbrev pub with_events :
    (ℕ → Bool) → List PubType → ℕ → (ℕ → PubType → ℕ → Bool) → ℕ → PubType → ℕ → Bool
with_events those ts this told i u x = (those i && (contains u ts && same this x)) || told i u x

abbrev pub less_events :
    (ℕ → Bool) → List PubType → ℕ → (ℕ → PubType → ℕ → Bool) → ℕ → PubType → ℕ → Bool
less_events those ts this told i u x = not (those i && (contains u ts && same this x)) && told i u x

module _ {knows : ℕ → Bool} (this : ℕ) where
  subscribe_each-View :
      (id : ℕ) (ts : List PubType) {c : Center} {told : ℕ → PubType → ℕ → Bool}
      → View c knows told
      → (c' : Center) × (subscribe_each id ts this c ≡ ok c')
        × View c' knows (with_events (λ i. knows id && same id i) ts this told)
  unfolding subscribe_each contains
  subscribe_each-View id [] {c} v = (c, refl, View-weaken v (λ i. refl) (λ i u x. ground arith))
  subscribe_each-View id (t ∷ ts) v =
      let (c₁, run₁, v₁) = subscribe-View v id this t in
      let (c₂, run₂, v₂) = subscribe_each-View id ts v₁ in
      (c₂, rw run₁ run₂, View-weaken v₂ (λ i. refl) (λ i u x. ground arith))

  un_subscribe_each-View :
      (id : ℕ) (ts : List PubType) {c : Center} {told : ℕ → PubType → ℕ → Bool}
      → View c knows told
      → (c' : Center) × (un_subscribe_each id ts this c ≡ ok c')
        × View c' knows (less_events (λ i. same id i) ts this told)
  unfolding un_subscribe_each contains
  un_subscribe_each-View id [] {c} v = (c, refl, View-weaken v (λ i. refl) (λ i u x. ground arith))
  un_subscribe_each-View id (t ∷ ts) v =
      let (c₁, run₁, v₁) = un_subscribe-View v id this t in
      let (c₂, run₂, v₂) = un_subscribe_each-View id ts v₁ in
      (c₂, rw run₁ run₂, View-weaken v₂ (λ i. refl) (λ i u x. ground arith))

  pub subscribe_all-View :
      (ds : List Demultiplex) (ts : List PubType) {c : Center} {told : ℕ → PubType → ℕ → Bool}
      → View c knows told
      → (c' : Center) × (subscribe_all ds ts this c ≡ ok c')
        × View c' knows (with_events (λ i. knows i && among i ds) ts this told)
  unfolding subscribe_all
  subscribe_all-View [] ts {c} v = (c, refl, View-weaken v (λ i. refl) (λ i u x. ground arith))
  subscribe_all-View (d ∷ ds) ts v =
      let (c₁, run₁, v₁) = subscribe_each-View d.id ts v in
      let (c₂, run₂, v₂) = subscribe_all-View ds ts v₁ in
      (
        c₂,
        rw run₁ run₂,
        View-weaken v₂ (λ i. refl) (λ i u x. ground (arith, nat_eq.beq_iff d.id i)),
      )

  pub un_subscribe_all-View :
      (ds : List Demultiplex) (ts : List PubType) {c : Center} {told : ℕ → PubType → ℕ → Bool}
      → View c knows told
      → (c' : Center) × (un_subscribe_all ds ts this c ≡ ok c')
        × View c' knows (less_events (λ i. among i ds) ts this told)
  unfolding un_subscribe_all
  un_subscribe_all-View [] ts {c} v = (c, refl, View-weaken v (λ i. refl) (λ i u x. ground arith))
  un_subscribe_all-View (d ∷ ds) ts v =
      let (c₁, run₁, v₁) = un_subscribe_each-View d.id ts v in
      let (c₂, run₂, v₂) = un_subscribe_all-View ds ts v₁ in
      (c₂, rw run₁ run₂, View-weaken v₂ (λ i. refl) (λ i u x. ground arith))

module _ {told : ℕ → PubType → ℕ → Bool} where
  pub open_all-View :
      (ms : List Given) {c : Center} {knows : ℕ → Bool}
      → AllGranted ms
      → View c knows told
      → (ds : List Demultiplex) × (c' : Center) × (open_all ms c ≡ ok (ds, c'))
        × View c' (λ i. among i ds || knows i) told
        × ((i : ℕ) → among i ds ≡ among_given i ms)
  unfolding open_all open_demultiplex
  open_all-View [] {c} g v =
      ([], c, refl, View-weaken v (λ i. ground arith) (λ i u x. refl), λ i. refl)
  open_all-View (m ∷ ms) ((fd, e), g) v =
      let (c₁, run₁, v₁) = register_pub-View v m.id m.this in
      let (ds, c₂, run₂, v₂, ids) = open_all-View ms g v₁ in
      (
        record { id = m.id; dmpfd = fd; notify = true } ∷ ds,
        c₂,
        rw (e, run₁, run₂) refl,
        View-weaken v₂ (λ i. ground arith) (λ i u x. refl),
        λ i. rw (ids i) refl,
      )

pub close_all-View :
    (ds : List Demultiplex) {c : Center} {knows : ℕ → Bool} {told : ℕ → PubType → ℕ → Bool}
    → View c knows told
    → View
        (close_all ds c)
        (λ i. not (among i ds) && knows i)
        (λ i t x. not (among i ds) && told i t x)
unfolding close_all
close_all-View [] v = View-weaken v (λ i. ground arith) (λ i u x. ground arith)
close_all-View (d ∷ ds) v =
    View-weaken (close_all-View ds (un_register_pub-View v d.id)) (λ i. ground arith)
      (λ i u x. ground arith)
