-- ===== src/Base/Maps.antt =====
-- `std::unordered_map` and `std::unordered_set` as lists in the order of iteration. Where the source
-- relies on no order, nothing that is proved does.
use mathlib.Core.Path.{◌≡◌, refl}
use mathlib.Core.Logic.{inl, inr}
use mathlib.Core.Bool.{Bool, true, false, ◌&&◌, ◌||◌, not}
use mathlib.Core.List.{List, [], ◌∷◌}
use mathlib.Core.Option.{Option, none, some}
use native.Mathlib.Omega.{arith}
use rproxy.Base.Tests.{if◌then◌else◌, Bool-cases}
use rproxy.Base.Eq.{Eq, same, same_refl}

abbrev pub is_some {ℓ} : {V : Type ℓ} → Option V → Bool
is_some none = false
is_some (some v) = true

module _ {ℓ κ} {K : Type ℓ} {V : Type κ} ⦃e : Eq K⦄ where
  unfoldable pub find : K → List (K × V) → Option V
  find k [] = none
  find k ((j, v) ∷ m) = if same j k then some v else find k m

  -- `find(k) != end()`
  unfoldable pub has_key : K → List (K × V) → Bool
  has_key k m = is_some (find k m)

  -- `emplace`: an entry that is there stays.
  unfoldable pub emplace : K → V → List (K × V) → List (K × V)
  unfolding has_key
  emplace k v m = if has_key k m then m else (k, v) ∷ m

  -- A write through `at(k)` or through an iterator: nothing where there is no entry.
  unfoldable pub assign : K → V → List (K × V) → List (K × V)
  assign k v [] = []
  assign k v ((j, w) ∷ m) = if same j k then (j, v) ∷ m else (j, w) ∷ assign k v m

  unfoldable pub erase : K → List (K × V) → List (K × V)
  erase k [] = []
  erase k ((j, v) ∷ m) = let rest = erase k m in if same j k then rest else (j, v) ∷ rest

  pub find-emplace :
      (k j : K) (v : V) (m : List (K × V))
      → find j (emplace k v m) ≡ (if same k j && not (has_key k m) then some v else find j m)
  unfolding find emplace has_key
  find-emplace k j v m = ground (arith, e.beq_iff k j)

  pub find-assign :
      (k j : K) (v : V) (m : List (K × V))
      → find j (assign k v m) ≡ (if same k j && has_key k m then some v else find j m)
  unfolding find assign has_key
  find-assign k j v [] = ground arith
  find-assign k j v ((i, w) ∷ m) =
      ground (arith, e.beq_iff k j, e.beq_iff i j, e.beq_iff i k, find-assign k j v m)

  pub find-erase :
      (k j : K) (m : List (K × V)) → find j (erase k m) ≡ (if same k j then none else find j m)
  unfolding find erase
  find-erase k j [] = ground arith
  find-erase k j ((i, w) ∷ m) =
      ground (arith, e.beq_iff k j, e.beq_iff i j, e.beq_iff i k, find-erase k j m)

  pub find-assign-emplace :
      (k j : K) (v w : V) (m : List (K × V))
      → find j (assign k v (emplace k w m)) ≡ (if same k j then some v else find j m)
  unfolding has_key
  find-assign-emplace k j v w m = ground (
    arith,
    e.beq_iff k j,
    same_refl k,
    find-assign k j v (emplace k w m),
    find-emplace k j w m,
    find-emplace k k w m,
  )

module _ {ℓ} {A : Type ℓ} ⦃e : Eq A⦄ where
  unfoldable pub contains : A → List A → Bool
  contains a [] = false
  contains a (x ∷ xs) = same x a || contains a xs

  -- `emplace` of a set
  unfoldable pub insert : A → List A → List A
  insert a xs = if contains a xs then xs else a ∷ xs

  unfoldable pub remove : A → List A → List A
  remove a [] = []
  remove a (x ∷ xs) = let rest = remove a xs in if same x a then rest else x ∷ rest

  pub contains-insert :
      (a b : A) (xs : List A) → contains b (insert a xs) ≡ (same a b || contains b xs)
  unfolding contains insert
  contains-insert a b xs = elim (Bool-cases (contains a xs)) [
    | inl old ↦ ground (arith, e.beq_iff a b, old)
    | inr new ↦ rw new refl
  ]

  pub contains-remove :
      (a b : A) (xs : List A) → contains b (remove a xs) ≡ (not (same a b) && contains b xs)
  unfolding contains remove
  contains-remove a b [] = ground arith
  contains-remove a b (x ∷ xs) =
      ground (arith, e.beq_iff a b, e.beq_iff x a, e.beq_iff x b, contains-remove a b xs)
