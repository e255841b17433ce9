-- ===== src/Pubsub/Center/Refine.antt =====
-- `PubSubCenter` (src/pubsub/pub_sub.cc) keeps to the registry of `Spec`.
use rproxy.Base.{
  ℕ, Bool, true, ◌≡◌, refl, ◌&&◌, ◌||◌, not, Option, none, some, List, arith, if◌then◌else◌, Result,
  ok, err, Bool-cases, inl, inr,
}
use rproxy.Base.Eq.{same, nat_eq}
use rproxy.Base.Maps.{
  find, has_key, contains, insert, remove, find-emplace, find-erase, contains-insert,
  contains-remove,
}
use rproxy.Pubsub.Event.{PubType, pub_type_eq, pub_type_beq_iff}
use rproxy.Pubsub.Center.{
  Center, set_of, store_set, register_pub, un_register_pub, subscribe, un_subscribe, receivers,
}
use rproxy.Pubsub.Center.Spec
use rproxy.Pubsub.Center.Spec.{Registry}
use rproxy.Pubsub.Center.Invariant.{
  IsValid, set_of-store_set, store_set-IsValid, insert-Distinct, remove-Distinct,
}

pub record Represents (c : Center) (r : Registry) : Type 0 where
  pub known : (i : ℕ) → find i c.publishers ≡ r.publisher i
  pub told : (i : ℕ) (t : PubType) (s : ℕ) → contains s (receivers i t c) ≡ r.told i t s

-- Both sides fail alike, or the center that results is valid and stands for the registry that results.
abbrev pub Agrees : Result Center → Result Registry → Type 0
Agrees (ok c) (ok r) = IsValid c × Represents c r
Agrees (err e) (err f) = e ≡ f
Agrees (ok c) (err f) = ⊥
Agrees (err e) (ok r) = ⊥

module _ (c : Center) (r : Registry) (v : IsValid c) (rep : Represents c r) where
  pub register_pub-Agrees :
      (id : ℕ) (p : Option ℕ) → Agrees (register_pub id p c) (Spec.register id p r)
  unfolding register_pub set_of receivers has_key find contains
  register_pub-Agrees id none = refl
  register_pub-Agrees id (some p) = (
    record {
      rows = λ i h. v.rows i (ground (arith, find-emplace id i p c.publishers));
      unique = v.unique;
    },
    record {
      known = λ i. ground (arith, find-emplace id i p c.publishers, rep.known i, rep.known id);
      told = λ i t s.
          ground (arith, find-emplace id i p c.publishers, rep.told i t s, rep.known id, v.rows i);
    },
  )

  pub un_register_pub-Agrees :
      (id : ℕ) → Agrees (ok (un_register_pub id c)) (ok (Spec.un_register id r))
  unfolding un_register_pub set_of receivers has_key find contains
  un_register_pub-Agrees id = elim (Bool-cases (has_key id c.publishers)) [
    | inl here ↦ rw here (
      record {
        rows = λ i h.
            ground (arith, find-erase id i c.publishers, find-erase id i c.subscribers, v.rows i);
        unique = λ i t. rw (find-erase id i c.subscribers) (ground (arith, v.unique i t));
      },
      record {
        known = λ i. ground (arith, find-erase id i c.publishers, rep.known i);
        told = λ i t s.
            ground
              (arith, find-erase id i c.publishers, find-erase id i c.subscribers, rep.told i t s);
      },
    )
    | inr gone ↦ rw gone (
      v,
      record {
        known = λ i. ground (arith, rep.known i);
        told = λ i t s. ground (arith, rep.told i t s);
      },
    )
  ]

  store-Represents :
      (id : ℕ) (t : PubType) (s : List ℕ) (f : ℕ → Bool)
      → has_key id c.publishers ≡ true
      → ((x : ℕ) → contains x s ≡ f x)
      → Represents
          (store_set id t s c)
          (record r { told = λ i u x. if same id i && same t u then f x else r.told i u x })
  unfolding receivers store_set
  store-Represents id t s f h e = record {
    known = rep.known;
    told = λ i u x. ground (arith, set_of-store_set id i t u s c, rep.told i u x, e x);
  }

  pub subscribe-Agrees :
      (id : ℕ) (t : PubType) (s : Option ℕ) → Agrees (subscribe id t s c) (Spec.subscribe id t s r)
  unfolding subscribe receivers has_key contains
  subscribe-Agrees id t none = refl
  subscribe-Agrees id t (some s) = elim (Bool-cases (has_key id c.publishers)) [
    | inl here ↦
        let stored =
          store-Represents id t (insert s (set_of id t c))
            (λ x. same s x || contains x (set_of id t c)) here
            (λ x. contains-insert s x (set_of id t c)) in
        rw here (
          store_set-IsValid id t _ c here (insert-Distinct s _ (v.unique id t)) v,
          record {
            known = stored.known;
            told = λ i u x.
                ground
                  (arith, pub_type_beq_iff t u, stored.told i u x, rep.told i u x, rep.known id);
          },
        )
    | inr gone ↦ rw gone (
      v,
      record { known = rep.known; told = λ i u x. ground (arith, rep.told i u x, rep.known id) },
    )
  ]

  pub un_subscribe-Agrees :
      (id : ℕ) (t : PubType) (s : Option ℕ)
      → Agrees (un_subscribe id t s c) (Spec.un_subscribe id t s r)
  unfolding un_subscribe receivers has_key contains
  un_subscribe-Agrees id t none = refl
  un_subscribe-Agrees id t (some s) = elim (Bool-cases (has_key id c.publishers)) [
    | inl here ↦
        let stored =
          store-Represents id t (remove s (set_of id t c))
            (λ x. not (same s x) && contains x (set_of id t c)) here
            (λ x. contains-remove s x (set_of id t c)) in
        rw here (
          store_set-IsValid id t _ c here (remove-Distinct s _ (v.unique id t)) v,
          record {
            known = stored.known;
            told = λ i u x. ground (arith, pub_type_beq_iff t u, stored.told i u x, rep.told i u x);
          },
        )
    | inr gone ↦
        rw gone (v, record { known = rep.known; told = λ i u x. ground (arith, rep.told i u x) })
  ]

  -- The entries that a notification makes change nothing that anybody sees.
  pub notified-Agrees :
      (id : ℕ) (t : PubType)
      → Agrees (ok (if has_key id c.publishers then store_set id t (set_of id t c) c else c)) (ok r)
  unfolding receivers
  notified-Agrees id t = elim (Bool-cases (has_key id c.publishers)) [
    | inl here ↦
        let stored =
          store-Represents id t (set_of id t c) (λ x. contains x (set_of id t c)) here
            (λ x. refl) in
        rw here (
          store_set-IsValid id t _ c here (v.unique id t) v,
          record {
            known = stored.known;
            told = λ i u x. ground (arith, pub_type_beq_iff t u, stored.told i u x, rep.told i u x);
          },
        )
    | inr gone ↦ rw gone (v, rep)
  ]
