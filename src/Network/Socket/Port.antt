-- ===== src/Network/Socket/Port.antt =====
-- The port of an address in src/network/stream_socket.cc, through its text and the order of its bytes.
use rproxy.Base.{
  ℕ, zero, suc, ◌+◌, ◌-◌, ◌*◌, ◌/◌, ◌%◌, ◌^◌, ◌<◌, true, ◌≡◌, refl, ap, ◌∙◌, List, [], ◌∷◌, ◌++◌,
  arith, ltb, ltb→lt, Bool-cases, inl, inr,
}
use native.Mathlib.Nat.{pow-suc}
use rproxy.Network.Addr.{InetAddr, c_str, digits, port_text}
use rproxy.Network.Addr.Injective.{c_str_lem, digits-Lacks}
use rproxy.Network.Socket.{is_digit, dec_from, atoi, htons, ntohs}

abbrev AllDigits : List ℕ → Type 0
AllDigits [] = Unit {0}
AllDigits (c ∷ cs) = (is_digit c ≡ true) × AllDigits cs

dec_from-append :
    (acc : ℕ) (xs ys : List ℕ)
    → AllDigits xs
    → dec_from acc (xs ++ ys) ≡ dec_from (dec_from acc xs) ys
unfolding dec_from
dec_from-append acc [] ys h = refl
dec_from-append acc (x ∷ xs) ys h = rw h.0 (dec_from-append (acc * 10 + (x - b'0')) xs ys h.1)

AllDigits-append : (xs ys : List ℕ) → AllDigits xs → AllDigits ys → AllDigits (xs ++ ys)
AllDigits-append [] ys p q = q
AllDigits-append (x ∷ xs) ys p q = (p.0, AllDigits-append xs ys p.1 q)

last_digit : (n : ℕ) → n < 10 → is_digit (48 + n) ≡ true
last_digit n h = ground arith

digits-AllDigits : (f n : ℕ) → AllDigits (digits f n)
unfolding digits
digits-AllDigits zero n = tt
digits-AllDigits (suc f) n = elim (Bool-cases (ltb n 10)) [
  | inl one ↦ rw one (last_digit n (ltb→lt _ _ one), tt)
  | inr more ↦ rw more (
      AllDigits-append (digits f (n / 10)) _ (digits-AllDigits f (n / 10))
        (last_digit (n % 10) (omega arith), tt))
]

dec_from_last : (acc n : ℕ) → n < 10 → dec_from acc ((48 + n) ∷ []) ≡ acc * 10 + n
unfolding dec_from
dec_from_last acc n h = rw (last_digit n h) (omega arith)

-- The text of a number is read back.
pub dec_from-digits : (f n : ℕ) → n < 10 ^ f → dec_from 0 (digits f n) ≡ n
unfolding digits dec_from
dec_from-digits zero n h = omega arith
dec_from-digits (suc f) n h = elim (Bool-cases (ltb n 10)) [
  | inl one ↦ rw one (dec_from_last 0 n (ltb→lt _ _ one) ∙ omega arith)
  | inr more ↦ rw more (
      dec_from-append 0 (digits f (n / 10)) ((48 + n % 10) ∷ []) (digits-AllDigits f (n / 10))
      ∙ ap (λ acc. dec_from acc ((48 + n % 10) ∷ []))
          (dec_from-digits f (n / 10) (omega (arith, pow-suc 10 f)))
      ∙ dec_from_last (n / 10) (n % 10) (omega arith)
      ∙ omega arith)
]

-- `ntohs(htons(atoi(port().c_str())))` gives the port.
pub ntohs-htons-atoi :
    (a : InetAddr) → a.port < 2 ^ 16 → ntohs (htons (atoi (c_str (port_text a)))) ≡ a.port
unfolding atoi port_text
ntohs-htons-atoi a h =
    rw
      (
        c_str_lem (digits 5 a.port) (digits-Lacks 0 5 a.port (inl (omega arith))),
        dec_from-digits 5 a.port (omega arith),
      )
      (omega arith)
