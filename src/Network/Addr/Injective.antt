-- ===== src/Network/Addr/Injective.antt =====
-- `InetAddr::toString` of src/network/stream_socket.cc tells addresses apart: it is the key under
-- which the load balancer keeps its backends.
use rproxy.Base.{
  ℕ, zero, suc, ◌+◌, ◌-◌, ◌*◌, ◌/◌, ◌%◌, ◌^◌, ◌<◌, true, ◌≡◌, ◌≢◌, refl, ap, sym, ◌∙◌, ◌↔◌, List,
  [], ◌∷◌, ◌++◌, arith, ltb, Bool-cases, inl, inr, ◌⊎◌, ltb→lt, lt→ltb,
}
use native.Mathlib.Nat.{pow-suc}
use rproxy.Base.Eq.{list_beq, list_beq_iff}
use rproxy.Network.Addr.{InetAddr, equal, c_str, digits, port_text, to_string}

-- Every element differs from `c`.
abbrev pub Lacks : ℕ → List ℕ → Type 0
Lacks c [] = Unit {0}
Lacks c (x ∷ xs) = (x ≢ c) × Lacks c xs

Lacks-append : (c : ℕ) (xs ys : List ℕ) → Lacks c xs → Lacks c ys → Lacks c (xs ++ ys)
Lacks-append c [] ys p q = q
Lacks-append c (x ∷ xs) ys p q = (p.0, Lacks-append c xs ys p.1 q)

pub c_str_lem : (xs : List ℕ) → Lacks 0 xs → c_str xs ≡ xs
unfolding c_str
c_str_lem [] p = refl
c_str_lem (x ∷ xs) p = ground (arith, c_str_lem xs p.1)

cons_tail : {x y : ℕ} {xs ys : List ℕ} → x ∷ xs ≡ y ∷ ys → xs ≡ ys
cons_tail e = ground arith

not-Lacks : (c : ℕ) (xs ys : List ℕ) → Lacks c (xs ++ (c ∷ ys)) → ⊥
not-Lacks c [] ys p = p.0 refl
not-Lacks c (x ∷ xs) ys p = not-Lacks c xs ys p.1

-- A list is cut at its last `c` in one way only.
cut_unique :
    (c : ℕ) (xs ys ds es : List ℕ)
    → Lacks c ds
    → Lacks c es
    → xs ++ (c ∷ ds) ≡ ys ++ (c ∷ es)
    → (xs ≡ ys) × (ds ≡ es)
cut_unique c [] [] ds es p q e = (refl, ground arith)
cut_unique c [] (y ∷ ys) ds es p q e = absurd (not-Lacks c ys es (rw h at p))
  where
    h : ds ≡ ys ++ (c ∷ es)
    h = ground arith
cut_unique c (x ∷ xs) [] ds es p q e = absurd (not-Lacks c xs ds (rw h at q))
  where
    h : es ≡ xs ++ (c ∷ ds)
    h = ground arith
cut_unique c (x ∷ xs) (y ∷ ys) ds es p q e =
    let r = cut_unique c xs ys ds es p q (ground arith) in (ground (arith, r.0), r.1)

pub digits-Lacks : (c f n : ℕ) → (c < 48) ⊎ (57 < c) → Lacks c (digits f n)
unfolding digits
digits-Lacks c zero n h = tt
digits-Lacks c (suc f) n h = elim (Bool-cases (ltb n 10)) [
  | inl one ↦ rw one (omega (arith, ltb→lt _ _ one), tt)
  | inr more ↦ rw more (
      Lacks-append c (digits f (n / 10)) ((48 + n % 10) ∷ []) (digits-Lacks c f (n / 10) h)
        (omega arith, tt))
]

-- The number that digits stand for.
abbrev number_from : ℕ → List ℕ → ℕ
number_from acc [] = acc
number_from acc (d ∷ ds) = number_from (acc * 10 + (d - 48)) ds

number_from-append :
    (acc : ℕ) (xs : List ℕ) (d : ℕ)
    → number_from acc (xs ++ (d ∷ [])) ≡ number_from acc xs * 10 + (d - 48)
number_from-append acc [] d = refl
number_from-append acc (x ∷ xs) d = number_from-append (acc * 10 + (x - 48)) xs d

number-digits : (f n : ℕ) → n < 10 ^ suc f → number_from 0 (digits (suc f) n) ≡ n
unfolding digits
number-digits zero n h = rw (lt→ltb n 10 (omega arith)) (omega arith)
number-digits (suc f) n h = elim (Bool-cases (ltb n 10)) [
  | inl one ↦ rw one (omega arith)
  | inr more ↦
      rw (more, number-digits_step)
        (omega (arith, number-digits f (n / 10) (omega (arith, pow-suc 10 (suc f)))))
]
  where
    number-digits_step :
        number_from 0 (digits (suc f) (n / 10) ++ ((48 + n % 10) ∷ []))
        ≡ number_from 0 (digits (suc f) (n / 10)) * 10 + (48 + n % 10 - 48)
    number-digits_step = number_from-append 0 (digits (suc f) (n / 10)) (48 + n % 10)

abbrev tail_text : InetAddr → List ℕ
tail_text a = digits 5 a.port ++ (b']' ∷ [])

to_string_lem : (a : InetAddr) → Lacks 0 a.ip → to_string a ≡ b'[' ∷ (a.ip ++ (b':' ∷ tail_text a))
unfolding to_string port_text
to_string_lem a p =
    rw (c_str_lem a.ip p, c_str_lem (digits 5 a.port) (digits-Lacks 0 5 a.port (inl (omega arith))))
      refl

tail_text-Lacks : (a : InetAddr) → Lacks b':' (tail_text a)
tail_text-Lacks a =
    Lacks-append b':' (digits 5 a.port) (b']' ∷ []) (digits-Lacks b':' 5 a.port (inr (omega arith)))
      (omega arith, tt)

-- Two addresses with the same text are the same address, if the texts of their hosts hold no zero.
pub to_string-injective :
    (a b : InetAddr)
    → Lacks 0 a.ip
    → Lacks 0 b.ip
    → a.port < 2 ^ 16
    → b.port < 2 ^ 16
    → to_string a ≡ to_string b
    → a ≡ b
to_string-injective a b pa pb qa qb e = λ i. record { ip = parts.0 i; port = ports i }
  where
    texts : a.ip ++ (b':' ∷ tail_text a) ≡ b.ip ++ (b':' ∷ tail_text b)
    texts = cons_tail (sym (to_string_lem a pa) ∙ e ∙ to_string_lem b pb)

    parts : (a.ip ≡ b.ip) × (tail_text a ≡ tail_text b)
    parts =
        cut_unique b':' a.ip b.ip (tail_text a) (tail_text b) (tail_text-Lacks a)
          (tail_text-Lacks b) texts

    numbers : digits 5 a.port ≡ digits 5 b.port
    numbers = (cut_unique b']' (digits 5 a.port) (digits 5 b.port) [] [] tt tt parts.1).0

    ports : a.port ≡ b.port
    ports = omega (
      arith,
      number-digits 4 a.port (omega arith),
      number-digits 4 b.port (omega arith),
      ap (number_from 0) numbers,
    )

-- `operator==` of addresses is equality.
pub equal_iff : (a b : InetAddr) → (equal a b ≡ true) ↔ (a ≡ b)
unfolding equal
equal_iff a b = (
  λ h. λ i. record { ip = sym ((list_beq_iff b.ip a.ip).0 (hosts h)) i; port = sym (ports h) i },
  λ e. ground (arith, list_beq_iff b.ip a.ip),
)
  where
    hosts : equal a b ≡ true → list_beq b.ip a.ip ≡ true
    hosts h = ground arith

    ports : equal a b ≡ true → b.port ≡ a.port
    ports h = ground arith
