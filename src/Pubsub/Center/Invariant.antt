-- ===== src/Pubsub/Center/Invariant.antt =====
-- The invariant of `PubSubCenter` (src/pubsub/pub_sub.cc): subscriptions are kept for registered
-- publishers only, and no subscriber is twice in a set.
use rproxy.Base.{ℕ, Bool, true, false, ◌≡◌, refl, ◌&&◌, none, List, [], ◌∷◌, arith, if◌then◌else◌}
use rproxy.Base.Eq.{same, nat_eq}
use rproxy.Base.Maps.{
  find, has_key, emplace, assign, contains, insert, remove, find-assign-emplace, contains-remove,
}
use rproxy.Pubsub.Event.{PubType, pub_type_eq, pub_type_beq_iff}
use rproxy.Pubsub.Center.{Center, Row, or_empty, set_of, store_set, empty_center}

abbrev pub Distinct : List ℕ → Type 0
Distinct [] = Unit {0}
Distinct (x ∷ xs) = (contains x xs ≡ false) × Distinct xs

pub record IsValid (c : Center) : Type 0 where
  pub rows : (i : ℕ) → has_key i c.publishers ≡ false → find i c.subscribers ≡ none
  pub unique : (i : ℕ) (t : PubType) → Distinct (set_of i t c)

pub choose : (P : List ℕ → Type 0) (b : Bool) {x y : List ℕ} → P x → P y → P (if b then x else y)
choose P true p q = p
choose P false p q = q

pub insert-Distinct : (s : ℕ) (xs : List ℕ) → Distinct xs → Distinct (insert s xs)
unfolding insert
insert-Distinct s xs d = ground arith

pub remove-Distinct : (s : ℕ) (xs : List ℕ) → Distinct xs → Distinct (remove s xs)
unfolding remove
remove-Distinct s [] d = tt
remove-Distinct s (x ∷ xs) d = ground (arith, remove-Distinct s xs d.1, contains-remove s x xs)

-- What a set is after another was stored.
pub set_of-store_set :
    (id i : ℕ) (t u : PubType) (s : List ℕ) (c : Center)
    → set_of i u (store_set id t s c) ≡ (if same id i && same t u then s else set_of i u c)
unfolding set_of store_set
set_of-store_set id i t u s c = ground (
  arith,
  pub_type_beq_iff t u,
  find-assign-emplace id i (assign t s (emplace t [] row)) [] c.subscribers,
  find-assign-emplace t u s [] row,
)
  where
    row : Row
    row = or_empty (find id c.subscribers)

pub empty_center-IsValid : IsValid empty_center
unfolding empty_center set_of find
empty_center-IsValid = record { rows = λ i h. refl; unique = λ i t. tt }

pub store_set-IsValid :
    (id : ℕ) (t : PubType) (s : List ℕ) (c : Center)
    → has_key id c.publishers ≡ true
    → Distinct s
    → IsValid c
    → IsValid (store_set id t s c)
unfolding store_set
store_set-IsValid id t s c known d v = record {
  rows = λ i h. ground (
    arith,
    v.rows i,
    find-assign-emplace id i (assign t s (emplace t [] (or_empty (find id c.subscribers)))) []
        c.subscribers,
  );
  unique = λ i u.
      rw (set_of-store_set id i t u s c)
        (choose (λ xs. Distinct xs) (same id i && same t u) d (v.unique i u));
}
