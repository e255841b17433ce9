-- ===== src/Lifetime/View.antt =====
-- A center of src/pubsub/pub_sub.cc by what it answers: which publishers it knows, and who is told of
-- which event.
use rproxy.Base.{ℕ, Bool, false, ◌≡◌, refl, ◌∙◌, not, ◌&&◌, ◌||◌, some, arith, Result, ok, err}
use rproxy.Base.Eq.{same, nat_eq}
use rproxy.Base.Maps.{find, has_key, contains}
use rproxy.Pubsub.Event.{PubType, pub_type_eq}
use rproxy.Pubsub.Center.{Center, register_pub, un_register_pub, subscribe, un_subscribe, receivers}
use rproxy.Pubsub.Center.Invariant.{IsValid}
use rproxy.Pubsub.Center.Spec.{Registry}
use rproxy.Pubsub.Center.Refine.{
  Represents, Agrees, register_pub-Agrees, un_register_pub-Agrees, subscribe-Agrees,
  un_subscribe-Agrees,
}

pub record View (c : Center) (knows : ℕ → Bool) (told : ℕ → PubType → ℕ → Bool) : Type 0 where
  pub valid : IsValid c
  pub known : (i : ℕ) → has_key i c.publishers ≡ knows i
  pub tells : (i : ℕ) (t : PubType) (x : ℕ) → contains x (receivers i t c) ≡ told i t x

-- The registry that a center stands for
abbrev registry : Center → Registry
registry c = record {
  publisher = λ i. find i c.publishers;
  told = λ i t x. contains x (receivers i t c);
}

represents : (c : Center) → Represents c (registry c)
represents c = record { known = λ i. refl; told = λ i t x. refl }

-- A call that the registry accepts
settled :
    (m : Result Center) (r : Registry)
    → Agrees m (ok r)
    → (c : Center) × (m ≡ ok c) × IsValid c × Represents c r
settled (ok c) r (valid, rep) = (c, refl, valid, rep)
settled (err e) r h = absurd h

module _ {c : Center} {knows : ℕ → Bool} {told : ℕ → PubType → ℕ → Bool}
    (v : View c knows told) where
  pub View-weaken :
      {knows' : ℕ → Bool} {told' : ℕ → PubType → ℕ → Bool}
      → ((i : ℕ) → knows i ≡ knows' i)
      → ((i : ℕ) (t : PubType) (x : ℕ) → told i t x ≡ told' i t x)
      → View c knows' told'
  View-weaken k t = record {
    valid = v.valid;
    known = λ i. v.known i ∙ k i;
    tells = λ i u x. v.tells i u x ∙ t i u x;
  }

  -- Nobody is told of the events of a publisher that is not known.
  pub unknown_silent : (i : ℕ) (t : PubType) (x : ℕ) → knows i ≡ false → told i t x ≡ false
  unfolding receivers contains
  unknown_silent i t x e = ground (arith, e, v.known i, v.tells i t x)

  pub register_pub-View :
      (id p : ℕ)
      → (c' : Center) × (register_pub id (some p) c ≡ ok c')
        × View c' (λ i. same id i || knows i) told
  unfolding has_key
  register_pub-View id p =
      let (c', run, valid, rep) =
        settled _ _ (register_pub-Agrees c (registry c) v.valid (represents c) id (some p)) in
      (
        c',
        run,
        record {
          valid = valid;
          known = λ i. ground (arith, rep.known i, v.known i, v.known id, nat_eq.beq_iff id i);
          tells = λ i t x. rep.told i t x ∙ v.tells i t x;
        },
      )

  pub un_register_pub-View :
      (id : ℕ)
      → View
          (un_register_pub id c)
          (λ i. not (same id i) && knows i)
          (λ i t x. not (same id i) && told i t x)
  unfolding has_key
  un_register_pub-View id =
      let (valid, rep) = un_register_pub-Agrees c (registry c) v.valid (represents c) id in
      record {
        valid = valid;
        known = λ i. ground (arith, rep.known i, v.known i);
        tells = λ i t x. ground (arith, rep.told i t x, v.tells i t x);
      }

  pub subscribe-View :
      (id s : ℕ) (t : PubType)
      → (c' : Center) × (subscribe id t (some s) c ≡ ok c')
        × View c' knows (λ i u x. (knows id && (same id i && (same t u && same s x))) || told i u x)
  unfolding has_key
  subscribe-View id s t =
      let (c', run, valid, rep) =
        settled _ _ (subscribe-Agrees c (registry c) v.valid (represents c) id t (some s)) in
      (
        c',
        run,
        record {
          valid = valid;
          known = λ i. ground (arith, rep.known i, v.known i);
          tells = λ i u x. ground (arith, rep.told i u x, v.tells i u x, v.known id);
        },
      )

  pub un_subscribe-View :
      (id s : ℕ) (t : PubType)
      → (c' : Center) × (un_subscribe id t (some s) c ≡ ok c')
        × View c' knows (λ i u x. not (same id i && (same t u && same s x)) && told i u x)
  unfolding has_key
  un_subscribe-View id s t =
      let (c', run, valid, rep) =
        settled _ _ (un_subscribe-Agrees c (registry c) v.valid (represents c) id t (some s)) in
      (
        c',
        run,
        record {
          valid = valid;
          known = λ i. ground (arith, rep.known i, v.known i);
          tells = λ i u x. ground (arith, rep.told i u x, v.tells i u x);
        },
      )
