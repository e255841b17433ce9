-- ===== src/Pubsub/Center/Spec.antt =====
-- What `PubSubCenter` of src/pubsub/pub_sub.cc promises: which publisher has an identity, and which
-- subscriber is told of which event of which publisher.
use rproxy.Base.{
  ℕ, Bool, false, ◌&&◌, ◌||◌, not, Option, none, some, if◌then◌else◌, Result, ok, err,
  runtime_error, logic_error,
}
use rproxy.Base.Eq.{same, nat_eq}
use rproxy.Base.Maps.{is_some}
use rproxy.Pubsub.Event.{PubType, pub_type_eq}

pub record Registry : Type 0 where
  pub publisher : ℕ → Option ℕ
  pub told : ℕ → PubType → ℕ → Bool

-- Nobody is registered and nobody is told.
abbrev pub nobody : Registry
nobody = record { publisher = λ i. none; told = λ i t s. false }

abbrev pub register : ℕ → Option ℕ → Registry → Result Registry
register id none r = err runtime_error
register id (some p) r = ok (record r {
  publisher = λ i. if same id i && not (is_some (r.publisher id)) then some p else r.publisher i;
})

-- Forgets the publisher and everyone who was told of its events.
abbrev pub un_register : ℕ → Registry → Registry
un_register id r = record {
  publisher = λ i. if same id i then none else r.publisher i;
  told = λ i t s. not (same id i) && r.told i t s;
}

abbrev pub subscribe : ℕ → PubType → Option ℕ → Registry → Result Registry
subscribe id t none r = err logic_error
subscribe id t (some s) r = ok (record r {
  told =
      λ i u x. (is_some (r.publisher id) && (same id i && (same t u && same s x))) || r.told i u x;
})

abbrev pub un_subscribe : ℕ → PubType → Option ℕ → Registry → Result Registry
un_subscribe id t none r = err logic_error
un_subscribe id t (some s) r =
    ok (record r { told = λ i u x. not (same id i && (same t u && same s x)) && r.told i u x })
