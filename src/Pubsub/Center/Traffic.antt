-- ===== src/Pubsub/Center/Traffic.antt =====
-- The traffic accounts of `PubSubCenter` (src/pubsub/pub_sub.cc).
use rproxy.Base.{
  ℕ, ◌+◌, ◌%◌, ◌^◌, ◌<◌, true, false, ◌≡◌, ap, ◌∙◌, none, some, List, [], ◌∷◌, arith, if◌then◌else◌,
  Bool-cases, inl, inr, add_size, size_mod, leb,
}
use rproxy.Base.Eq.{same, text_eq, list_beq_iff, same_refl}
use rproxy.Base.Maps.{find, has_key, emplace, find-emplace, find-assign}
use rproxy.Pubsub.Center.{Center, account, traffic_of, is_limited}

-- The accounts made one after the other: an address and the bytes.
unfoldable pub account_all : List (List ℕ × ℕ) → Center → Center
account_all [] c = c
account_all ((b, n) ∷ entries) c = account_all entries (account b n c)

-- The bytes that a history counts for one address.
unfoldable pub counted : List ℕ → List (List ℕ × ℕ) → ℕ
counted a [] = 0
counted a ((b, n) ∷ entries) = (if same b a then n else 0) + counted a entries

-- One account: what is known grows, and a first account counts twice.
pub find-account :
    (a b : List ℕ) (n : ℕ) (c : Center)
    → find a (account b n c).traffic ≡ (
        if same b a
        then some (add_size (elim (find b c.traffic) [ none ↦ n | some v ↦ v ]) n)
        else find a c.traffic)
unfolding account has_key
find-account a b n c =
    let opened = emplace b n c.traffic in
    ground (
      arith,
      list_beq_iff b a,
      same_refl b,
      find-emplace b b n c.traffic,
      find-emplace b a n c.traffic,
      find-assign b a (add_size n n) opened,
      find-assign b a (add_size (elim (find b c.traffic) [ none ↦ n | some v ↦ v ]) n) opened,
    )

find-account_all :
    (a : List ℕ) (v : ℕ) (entries : List (List ℕ × ℕ)) (c : Center)
    → v < size_mod
    → find a c.traffic ≡ some v
    → find a (account_all entries c).traffic ≡ some ((v + counted a entries) % size_mod)
unfolding account_all counted
find-account_all a v [] c h e = e ∙ ap some (omega arith)
find-account_all a v ((b, n) ∷ entries) c h e = elim (Bool-cases (same b a)) [
  | inl hit ↦ rw hit (
      find-account_all a (add_size v n) entries (account b n c) (omega arith)
        (ground (arith, find-account a b n c, list_beq_iff b a))
      ∙ ap some (omega arith))
  | inr miss ↦ rw miss (
      find-account_all a v entries (account b n c) h (ground (arith, find-account a b n c))
      ∙ ap some (omega arith))
]

-- After the first account of an address, with `n` bytes, and any accounts of it and of others, the
-- traffic of the address is what was counted, modulo 2^64, with the first `n` counted twice.
pub traffic_after_accounts :
    (a : List ℕ) (n : ℕ) (entries : List (List ℕ × ℕ)) (c : Center)
    → has_key a c.traffic ≡ false
    → traffic_of a (account_all ((a, n) ∷ entries) c)
      ≡ (n + counted a ((a, n) ∷ entries)) % size_mod
unfolding traffic_of account_all counted has_key
traffic_after_accounts a n entries c h =
    rw
      (
        same_refl a,
        find-account_all a (add_size n n) entries (account a n c) (omega arith) opened,
        traffic_of,
      )
      (omega arith)
  where
    opened : find a (account a n c).traffic ≡ some (add_size n n)
    opened = ground (arith, find-account a a n c, same_refl a)

-- An address is limited exactly when it has no account or its traffic has reached 2^63.
pub is_limited_lem :
    (a : List ℕ) (c : Center)
    → is_limited a c ≡ elim (find a c.traffic) [ none ↦ true | some v ↦ leb (2 ^ 63) v ]
unfolding is_limited
is_limited_lem a c = ground arith
