-- ===== src/Pubsub/Instance/Places.antt =====
-- What holds while the threads that call `PubSubCenter::instance` (src/pubsub/pub_sub.cc) are at their
-- places.
use rproxy.Base.{
  ℕ, ◌+◌, ◌≤◌, ◌≡◌, ◌≢◌, refl, sym, ap, ◌∙◌, Option, none, some, get_elem?, put, get_elem?-put_same,
  get_elem?-put_other, arith, ==_cases, Option-cases, inl, inr,
}
use mathlib.Core.Path.{subst}
use rproxy.Pubsub.Instance.{
  Place, first_test, locking, second_test, making, storing, unlocking, returning, returned, Program,
  step_at,
}

-- What holds while thread `i` is at a place: between the mutex's calls it has the mutex, before it has
-- made a center there is none, and from then on there is one.
abbrev pub Fits : ℕ → Place → Option ℕ → Option ℕ → ℕ → Type 0
Fits i first_test center holder made = Unit {0}
Fits i locking center holder made = Unit
Fits i second_test center holder made = (holder ≡ some i) × (center ≡ none → made ≡ 0)
Fits i making center holder made = (holder ≡ some i) × (center ≡ none) × (made ≡ 0)
Fits i (storing c) center holder made = (holder ≡ some i) × (center ≡ none) × (c ≡ 0) × (made ≡ 1)
Fits i unlocking center holder made = (holder ≡ some i) × (center ≡ some 0)
Fits i returning center holder made = center ≡ some 0
Fits i (returned c) center holder made = c ≡ some 0

-- Where there is a center it is the first one made, and no second is.
abbrev pub Counts : Option ℕ → Option ℕ → ℕ → Type 0
Counts none none made = made ≡ 0
Counts none (some j) made = made ≤ 1
Counts (some c) holder made = (c ≡ 0) × (made ≡ 1)

pub record IsSafe (g : Program) : Type 0 where
  pub counts : Counts g.center g.holder g.made
  pub places :
      (i : ℕ) (p : Place) → get_elem? g.threads i ≡ some p → Fits i p g.center g.holder g.made

-- Thread `i` goes on to place `q`: it fits there, and what changes leaves the other threads fitting.
moved-IsSafe :
    (g : Program) (i made' : ℕ) (q p : Place) (center' holder' : Option ℕ)
    → IsSafe g
    → get_elem? g.threads i ≡ some p
    → Counts center' holder' made'
    → Fits i q center' holder' made'
    → ((j : ℕ) (r : Place)
        → i ≢ j
        → Fits j r g.center g.holder g.made
        → Fits j r center' holder' made')
    → IsSafe
        (record { center = center'; holder = holder'; made = made'; threads = put i q g.threads })
moved-IsSafe g i made' q p center' holder' v at counts fits frame = record {
  counts = counts;
  places = λ j r e. elim (==_cases i j) [
    | inl here ↦
        let same : some q ≡ some r =
          sym (get_elem?-put_same i q p g.threads at)
          ∙ ap (get_elem? (put i q g.threads)) here
          ∙ e in
        let moved : q ≡ r = cc in
        subst (λ n. Fits n r center' holder' made') here
          (subst (λ x. Fits i x center' holder' made') moved fits)
    | inr there ↦
        frame j r there (v.places j r (sym (get_elem?-put_other i j q g.threads there) ∙ e))
  ];
}

-- A thread goes on, and nothing else changes.
kept-IsSafe :
    (g : Program) (i : ℕ) (q p : Place)
    → IsSafe g
    → get_elem? g.threads i ≡ some p
    → Fits i q g.center g.holder g.made
    → IsSafe (record g { threads = put i q g.threads })
kept-IsSafe g i q p v at fits =
    moved-IsSafe g i g.made q p g.center g.holder v at v.counts fits (λ j r there h. h)

first_center : (o h : Option ℕ) (m c : ℕ) → o ≡ some c → Counts o h m → (o ≡ some 0) × (m ≡ 1)
first_center none h m c e k = absurd cc
first_center (some d) h m c e k = (ap some k.0, k.1)

none_made : (o h : Option ℕ) (m : ℕ) → o ≡ none → h ≡ none → Counts o h m → m ≡ 0
none_made none none m e f k = k
none_made none (some j) m e f k = absurd cc
none_made (some d) h m e f k = absurd cc

taken-Counts : (o h : Option ℕ) (m i : ℕ) → h ≡ none → Counts o h m → Counts o (some i) m
taken-Counts none none m i e k = omega (arith, k)
taken-Counts none (some j) m i e k = absurd cc
taken-Counts (some d) h m i e k = k

-- A thread that does not have the mutex is not concerned, as long as a center that is there stays.
frame-Fits :
    (j : ℕ) (r : Place) (center center' holder holder' : Option ℕ) (made made' : ℕ)
    → holder ≢ some j
    → (center ≡ some 0 → center' ≡ some 0)
    → Fits j r center holder made
    → Fits j r center' holder' made'
frame-Fits j first_test center center' holder holder' made made' other stays h = tt
frame-Fits j locking center center' holder holder' made made' other stays h = tt
frame-Fits j second_test center center' holder holder' made made' other stays h = absurd (other h.0)
frame-Fits j making center center' holder holder' made made' other stays h = absurd (other h.0)
frame-Fits j (storing c) center center' holder holder' made made' other stays h = absurd (other h.0)
frame-Fits j unlocking center center' holder holder' made made' other stays h = absurd (other h.0)
frame-Fits j returning center center' holder holder' made made' other stays h = stays h
frame-Fits j (returned c) center center' holder holder' made made' other stays h = h

held_by : (o : Option ℕ) (i j : ℕ) → o ≡ some i → i ≢ j → o ≢ some j
held_by o i j e there f = let both : some i ≡ some j = sym e ∙ f in there cc

pub step_at-IsSafe :
    (i : ℕ) (p : Place) (g : Program)
    → IsSafe g
    → get_elem? g.threads i ≡ some p
    → IsSafe (step_at i p g)
unfolding step_at
step_at-IsSafe i first_test g v at = elim (Option-cases g.center) [
  | inl none_yet ↦ rw (none_yet, step_at) (kept-IsSafe g i locking first_test v at tt)
  | inr (c, there) ↦
      rw (there, step_at)
        (kept-IsSafe g i returning first_test v at
          (first_center g.center g.holder g.made c there v.counts).0)
]
step_at-IsSafe i locking g v at = elim (Option-cases g.holder) [
  | inl free ↦
      rw (free, step_at)
        (moved-IsSafe g i g.made second_test locking g.center (some i) v at
          (taken-Counts g.center g.holder g.made i free v.counts)
          (refl, λ e. none_made g.center g.holder g.made e free v.counts)
          (λ j r there.
            frame-Fits j r g.center g.center g.holder (some i) g.made g.made (λ e. absurd cc)
              (λ e. e)))
  | inr (j, held) ↦ rw (held, step_at) v
]
step_at-IsSafe i second_test g v at =
    let (mine, fresh) = v.places i second_test at in
    elim (Option-cases g.center) [
      | inl none_yet ↦
          rw (none_yet, step_at)
            (kept-IsSafe g i making second_test v at (mine, none_yet, fresh none_yet))
      | inr (c, there) ↦
          rw (there, step_at)
            (kept-IsSafe g i unlocking second_test v at
              (mine, (first_center g.center g.holder g.made c there v.counts).0))
    ]
step_at-IsSafe i making g v at =
    let (mine, none_yet, fresh) = v.places i making at in
    moved-IsSafe g i (g.made + 1) (storing g.made) making g.center g.holder v at
      (rw (none_yet, mine) (omega arith)) (mine, none_yet, fresh, omega arith)
      (λ j r there.
        frame-Fits j r g.center g.center g.holder g.holder g.made (g.made + 1)
          (held_by g.holder i j mine there) (λ e. e))
step_at-IsSafe i (storing c) g v at =
    let (mine, none_yet, first, one) = v.places i (storing c) at in
    moved-IsSafe g i g.made unlocking (storing c) (some c) g.holder v at (first, one)
      (mine, ap some first)
      (λ j r there.
        frame-Fits j r g.center (some c) g.holder g.holder g.made g.made
          (held_by g.holder i j mine there) (λ e. absurd cc))
step_at-IsSafe i unlocking g v at =
    let (mine, there) = v.places i unlocking at in
    moved-IsSafe g i g.made returning unlocking g.center none v at
      (rw there (refl, (first_center g.center g.holder g.made 0 there v.counts).1)) there
      (λ j r other.
        frame-Fits j r g.center g.center g.holder none g.made g.made
          (held_by g.holder i j mine other) (λ e. e))
step_at-IsSafe i returning g v at =
    kept-IsSafe g i (returned g.center) returning v at (v.places i returning at)
step_at-IsSafe i (returned c) g v at = v
