-- ===== src/Pubsub/Center.antt =====
-- src/pubsub/pub_sub.hpp and pub_sub.cc: `PubSubCenter`. A `Publisher *` and a `Subscriber *` are
-- `none` (null) or a number that tells the objects apart.
pub mod Spec
pub mod Invariant
pub mod Refine
pub mod Run
pub mod Delivery
pub mod Traffic
mod Tests
use rproxy.Base.{
  ℕ, ◌-◌, ◌^◌, Bool, Option, none, some, List, [], ◌∷◌, ltb, if◌then◌else◌, Result, ok, err, ◌>>=◌,
  runtime_error, logic_error, add_size, size_mod,
}
use rproxy.Base.Eq.{nat_eq, text_eq}
use rproxy.Base.Maps.{find, has_key, emplace, assign, erase, insert, remove}
use rproxy.Pubsub.Event.{PubType, Context, pub_type_eq}

-- One publisher's subscribers, by the kind of event
abbrev pub Row : Type 0
Row = List (PubType × List ℕ)

pub record Center : Type 0 where
  pub publishers : List (ℕ × ℕ)
  pub subscribers : List (ℕ × Row)
  pub traffic : List (List ℕ × ℕ)

pub empty_center : Center
empty_center = record { publishers = []; subscribers = []; traffic = [] }

-- `registerPub`
pub register_pub : ℕ → Option ℕ → Center → Result Center
register_pub id none c = err runtime_error
register_pub id (some p) c = ok (record c { publishers = emplace id p c.publishers })

-- `unRegisterPub`
pub un_register_pub : ℕ → Center → Center
un_register_pub id c =
    if has_key id c.publishers
    then record c { publishers = erase id c.publishers; subscribers = erase id c.subscribers }
    else c

abbrev pub or_empty {ℓ} : {A : Type ℓ} → Option (List A) → List A
or_empty none = []
or_empty (some xs) = xs

-- The set that `subcribers_[id][type]` refers to
unfoldable pub set_of : ℕ → PubType → Center → List ℕ
set_of id t c = or_empty (find t (or_empty (find id c.subscribers)))

-- `subcribers_[id][type] = s`: the two `operator[]` make the entries that are missing.
pub store_set : ℕ → PubType → List ℕ → Center → Center
store_set id t s c =
    let row = or_empty (find id c.subscribers) in
    let row' = assign t s (emplace t [] row) in
    record c { subscribers = assign id row' (emplace id [] c.subscribers) }

-- `subscribe`
pub subscribe : ℕ → PubType → Option ℕ → Center → Result Center
subscribe id t none c = err logic_error
subscribe id t (some s) c =
    ok (if has_key id c.publishers then store_set id t (insert s (set_of id t c)) c else c)

-- `unSubscribe`
pub un_subscribe : ℕ → PubType → Option ℕ → Center → Result Center
un_subscribe id t none c = err logic_error
un_subscribe id t (some s) c =
    ok (if has_key id c.publishers then store_set id t (remove s (set_of id t c)) c else c)

-- The subscribers that `notifySubscriber` goes through, in the order of the set.
unfoldable pub receivers : ℕ → PubType → Center → List ℕ
receivers id t c = if has_key id c.publishers then set_of id t c else []

-- The loop of `notifySubscriber`: `sub->update(ctx)` for each, `update` being what the subscribers do
-- to the state of the program. A failure ends the loop.
pub deliver {ℓ} : {S : Type ℓ} → (ℕ → Context → S → Result S) → List ℕ → Context → S → Result S
deliver update [] ctx s = ok s
deliver update (r ∷ rs) ctx s = update r ctx s >>= λ s'. deliver update rs ctx s'

-- `notifySubscriber`
pub notify_subscriber {ℓ} :
    {S : Type ℓ}
    → (ℕ → Context → S → Result S)
    → ℕ
    → PubType
    → Context
    → Center
    → S
    → Result (Center × S)
notify_subscriber update id t ctx c s = do
  s' ← deliver update (receivers id t c) ctx s
  ok (if has_key id c.publishers then store_set id t (set_of id t c) c else c, s')

-- `MAX_TRAFFIC`, compared as a `size_t`
abbrev pub max_traffic : ℕ
max_traffic = 2 ^ 63 - 1

-- `traffic_.at(addr) += n`
add_to : List ℕ → ℕ → List (List ℕ × ℕ) → List (List ℕ × ℕ)
add_to addr n m = elim (find addr m) [ none ↦ m | some v ↦ assign addr (add_size v n) m ]

-- `account`: a first account makes the entry, and then adds to it as every account does.
pub account : List ℕ → ℕ → Center → Center
unfolding add_to
account addr n c = record c { traffic = add_to addr n (emplace addr n c.traffic) }

-- `traffic`: -1 as a `size_t` where there is no account
pub traffic_of : List ℕ → Center → ℕ
traffic_of addr c = elim (find addr c.traffic) [ none ↦ size_mod - 1 | some v ↦ v ]

-- `isLismited`
pub is_limited : List ℕ → Center → Bool
unfolding traffic_of
is_limited addr c = ltb max_traffic (traffic_of addr c)
