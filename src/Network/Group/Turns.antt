-- ===== src/Network/Group/Turns.antt =====
-- Whose turn it is in `registerFd` of src/network/group.hpp.
use rproxy.Base.{
  ℕ, zero, suc, ◌+◌, ◌%◌, ◌<◌, ◌≡◌, refl, ap, ap₂, sym, ◌∙◌, false, List, [], ◌∷◌, ◌++◌, length,
  drop, drop_all, length-drop, get_elem?, Result, ok, ◌>>=◌, arith, Option, none, some, ltb, ltb→lt,
  not-ltb, Bool-cases, inl, inr,
}
use native.Mathlib.Nat.{mod-eq_of_lt, mod-add-mod, mod-mod}
use rproxy.Network.Demultiplex.{Demultiplex, Effect, demultiplex_register}
use rproxy.Network.Group.{Group, init, wrap_around, register_fd}

-- The iterator stands before the demultiplexer at place `i`.
pub record IsAt (i : ℕ) (g : Group) : Type 0 where
  pub inside : i < length g.dmpes
  pub place : g.iter ≡ drop i g.dmpes

element_at {ℓ} :
    {A : Type ℓ} (i : ℕ) (xs : List A)
    → i < length xs
    → (a : A) × (drop i xs ≡ a ∷ drop (suc i) xs) × (get_elem? xs i ≡ some a)
element_at i [] h = absurd (omega arith)
element_at zero (x ∷ xs) h = (x, refl, refl)
element_at (suc i) (x ∷ xs) h = element_at i xs (omega arith)

wrap_around-cons : (all xs : List Demultiplex) → 0 < length xs → wrap_around all xs ≡ xs
unfolding wrap_around
wrap_around-cons all [] h = absurd (omega arith)
wrap_around-cons all (x ∷ xs) h = refl

wrap_around-drop :
    (i : ℕ) (all : List Demultiplex)
    → i < length all
    → wrap_around all (drop (suc i) all) ≡ drop (suc i % length all) all
unfolding wrap_around
wrap_around-drop i all h = elim (Bool-cases (ltb (suc i) (length all))) [
  | inl more ↦
      wrap_around-cons all (drop (suc i) all)
        (omega (arith, length-drop {0} (suc i) all, ltb→lt _ _ more))
      ∙ ap (λ q. drop q all) (sym (mod-eq_of_lt (ltb→lt _ _ more)))
  | inr last ↦
      ap (wrap_around all) (drop_all (suc i) all (not-ltb _ _ last))
      ∙ ap (λ q. drop q all) (sym (back_at_front (omega (arith, not-ltb _ _ last))))
]
  where
    back_at_front : suc i ≡ length all → suc i % length all ≡ 0
    back_at_front e = rw e (grind arith)

-- A descriptor goes to the demultiplexer whose turn it is, and the turn goes on.
pub register_fd-IsAt :
    (fd i : ℕ) (g : Group)
    → IsAt i g
    → (d : Demultiplex) × (rest : List Demultiplex) × (get_elem? g.dmpes i ≡ some d)
      × (register_fd fd g ≡ ok (record g { iter = rest }, demultiplex_register fd false d))
      × IsAt (suc i % length g.dmpes) (record g { iter = rest })
unfolding register_fd
register_fd-IsAt fd i g at_i =
    let (d, cut, found) = element_at i g.dmpes at_i.inside in
    (
      d,
      wrap_around g.dmpes (drop (suc i) g.dmpes),
      found,
      runs d (at_i.place ∙ cut),
      record {
        inside = omega (arith, at_i.inside);
        place = wrap_around-drop i g.dmpes at_i.inside;
      },
    )
  where
    runs :
        (d : Demultiplex)
        → g.iter ≡ d ∷ drop (suc i) g.dmpes
        → register_fd fd g
          ≡ ok (
            record g { iter = wrap_around g.dmpes (drop (suc i) g.dmpes) },
            demultiplex_register fd false d,
          )
    runs d e = ground arith

-- Some descriptors, one after the other.
unfoldable pub register_all : List ℕ → Group → Result (List Effect)
register_all [] g = ok []
register_all (fd ∷ fds) g = do
  (g', added) ← register_fd fd g
  effects ← register_all fds g'
  ok (added ++ effects)

-- What happens to a descriptor that goes to a demultiplexer.
abbrev pub added_to : ℕ → Option Demultiplex → List Effect
added_to fd none = []
added_to fd (some d) = demultiplex_register fd false d

-- The descriptors go to the demultiplexers in turn, the first to the one at place `p` modulo their
-- number.
abbrev pub in_turn : List Demultiplex → ℕ → List ℕ → List Effect
in_turn dmpes p [] = []
in_turn dmpes p (fd ∷ fds) =
    added_to fd (get_elem? dmpes (p % length dmpes)) ++ in_turn dmpes (suc p) fds

suc-mod : (n p q : ℕ) → p % n ≡ q % n → suc p % n ≡ suc q % n
suc-mod n p q e =
    ap (λ r. r % n) (omega arith)
    ∙ sym (mod-add-mod p n 1)
    ∙ ap (λ r. (r + 1) % n) e
    ∙ mod-add-mod q n 1
    ∙ ap (λ r. r % n) (omega arith)

in_turn-mod :
    (dmpes : List Demultiplex) (p q : ℕ) (fds : List ℕ)
    → p % length dmpes ≡ q % length dmpes
    → in_turn dmpes p fds ≡ in_turn dmpes q fds
in_turn-mod dmpes p q [] e = refl
in_turn-mod dmpes p q (fd ∷ fds) e =
    ap₂ (λ i rest. added_to fd (get_elem? dmpes i) ++ rest) e
      (in_turn-mod dmpes (suc p) (suc q) fds (suc-mod (length dmpes) p q e))

register_all-from :
    (fds : List ℕ) (i : ℕ) (g : Group) → IsAt i g → register_all fds g ≡ ok (in_turn g.dmpes i fds)
unfolding register_all
register_all-from [] i g at_i = refl
register_all-from (fd ∷ fds) i g at_i =
    let (d, rest, found, run, next) = register_fd-IsAt fd i g at_i in
    rw (run, register_all-from fds _ _ next, mod-eq_of_lt at_i.inside, found)
      (ap (λ es. ok (demultiplex_register fd false d ++ es))
        (in_turn-mod g.dmpes _ (suc i) fds (mod-mod (suc i) (length g.dmpes))))

-- The descriptors registered with a group that was just made go to its demultiplexers in turn: the one
-- at place `k` to the demultiplexer at place `k` modulo their number, and no registration fails.
pub register_all-in_turn :
    (dmpes : List Demultiplex) (fds : List ℕ)
    → 0 < length dmpes
    → register_all fds (init dmpes) ≡ ok (in_turn dmpes 0 fds)
unfolding init
register_all-in_turn dmpes fds h =
    register_all-from fds 0 (init dmpes) (record { inside = h; place = refl })
