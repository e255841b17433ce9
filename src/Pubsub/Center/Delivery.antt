-- ===== src/Pubsub/Center/Delivery.antt =====
-- What `notifySubscriber` of src/pubsub/pub_sub.cc does to the center, and a set with one subscriber.
use rproxy.Base.{
  ℕ, ◌≡◌, refl, List, [], ◌∷◌, if◌then◌else◌, arith, Result, ok, ◌>>=◌, bind_ok, Bool-cases, inl,
  inr,
}
use rproxy.Base.Eq.{nat_eq}
use rproxy.Base.Maps.{has_key}
use rproxy.Pubsub.Event.{PubType, Context, pub_type_eq, pub_type_beq_iff}
use rproxy.Pubsub.Center.{Center, set_of, store_set, receivers, deliver, notify_subscriber, account}
use rproxy.Pubsub.Center.Invariant.{set_of-store_set}

-- The two `operator[]` make the entries that are missing.
abbrev pub looked_up : ℕ → PubType → Center → Center
looked_up id t c = if has_key id c.publishers then store_set id t (set_of id t c) c else c

pub receivers-looked_up :
    (id i : ℕ) (t u : PubType) (c : Center) → receivers i u (looked_up id t c) ≡ receivers i u c
unfolding receivers store_set
receivers-looked_up id i t u c = elim (Bool-cases (has_key id c.publishers)) [
  | inl known ↦ rw known (
      ground (
        arith,
        set_of-store_set id i t u (set_of id t c) c,
        nat_eq.beq_iff id i,
        pub_type_beq_iff t u,
      ))
  | inr unknown ↦ rw unknown refl
]

pub traffic-looked_up : (id : ℕ) (t : PubType) (c : Center) → (looked_up id t c).traffic ≡ c.traffic
unfolding store_set
traffic-looked_up id t c = ground arith

deliver_one {ℓ} :
    {S : Type ℓ} (update : ℕ → Context → S → Result S) (sub : ℕ) (ctx : Context) (s : S)
    → deliver update (sub ∷ []) ctx s ≡ update sub ctx s
unfolding deliver
deliver_one update sub ctx s = bind_ok (update sub ctx s)

pub notify_one {ℓ} :
    {S : Type ℓ} (update : ℕ → Context → S → Result S) (id sub : ℕ) (t : PubType) (ctx : Context)
    (c : Center) (s : S)
    → receivers id t c ≡ sub ∷ []
    → notify_subscriber update id t ctx c s ≡ (update sub ctx s >>= λ s'. ok (looked_up id t c, s'))
unfolding notify_subscriber
notify_one update id sub t ctx c s e = rw (e, deliver_one update sub ctx s) refl

-- An account does not change who is told.
pub receivers-traffic :
    (i : ℕ) (u : PubType) (c : Center) (accounts : List (List ℕ × ℕ))
    → receivers i u (record c { traffic = accounts }) ≡ receivers i u c
unfolding receivers set_of
receivers-traffic i u c accounts = refl

pub receivers-account :
    (i : ℕ) (u : PubType) (addr : List ℕ) (n : ℕ) (c : Center)
    → receivers i u (account addr n c) ≡ receivers i u c
unfolding receivers set_of account
receivers-account i u addr n c = refl
