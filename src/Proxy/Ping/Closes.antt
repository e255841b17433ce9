-- ===== src/Proxy/Ping/Closes.antt =====
-- The checksum of src/proxy/ping.hpp is that of RFC 1071.
use rproxy.Base.{
  ℕ, ◌+◌, ◌*◌, ◌/◌, ◌%◌, ◌^◌, ◌≤◌, ◌<◌, ◌≡◌, ◌∙◌, Option, none, some, List, [], ◌∷◌, length,
  add_size, arith,
}
use rproxy.Proxy.Ping.{sum_words, add_tail, fold, checksum}

abbrev pub total : List ℕ → ℕ
total [] = 0
total (w ∷ ws) = w + total ws

-- The words are `short`s, and the byte is one.
abbrev pub AreWords : List ℕ → Type 0
AreWords [] = Unit {0}
AreWords (w ∷ ws) = (w < 2 ^ 16) × AreWords ws

abbrev pub byte_of : Option ℕ → ℕ
byte_of none = 0
byte_of (some b) = b

total_le : (ws : List ℕ) → AreWords ws → total ws ≤ 65535 * length ws
total_le [] h = omega arith
total_le (w ∷ ws) h = omega (arith, total_le ws h.1)

sum_words-total :
    (sum : ℕ) (ws : List ℕ) → sum + total ws < 2 ^ 64 → sum_words sum ws ≡ sum + total ws
unfolding sum_words
sum_words-total sum [] h = omega arith
sum_words-total sum (w ∷ ws) h = sum_words-total (add_size sum w) ws (omega arith) ∙ omega arith

add_tail-byte_of :
    (sum : ℕ) (tail : Option ℕ)
    → sum + byte_of tail < 2 ^ 64
    → add_tail sum tail ≡ sum + byte_of tail
unfolding add_tail
add_tail-byte_of sum none h = omega arith
add_tail-byte_of sum (some b) h = omega arith

-- Two folds make 16 bits, and keep the residue by 2^16 - 1.
fold-fold :
    (s : ℕ) → s < 2 ^ 32 → (fold (fold s) < 2 ^ 16) × ((q : ℕ) × (s ≡ 65535 * q + fold (fold s)))
unfolding fold
fold-fold s h = (omega arith, (s / 2 ^ 16 + (s % 2 ^ 16 + s / 2 ^ 16) / 2 ^ 16, omega arith))

-- The checksum of up to 65000 words and a last byte fits in 16 bits, and the sum of all of them and
-- the checksum is a multiple of 2^16 - 1, which is how a receiver tests it.
pub checksum-Closes :
    (words : List ℕ) (tail : Option ℕ)
    → AreWords words
    → length words ≤ 65000
    → byte_of tail < 256
    → (checksum words tail < 2 ^ 16)
      × ((total words + byte_of tail + checksum words tail) % 65535 ≡ 0)
unfolding checksum
checksum-Closes words tail w short byte =
    let (small, (q, residue)) = fold-fold all (omega (arith, sum, total_le words w)) in
    (omega arith, omega (arith, sum, residue, small))
  where
    all : ℕ
    all = add_tail (sum_words 0xffff words) tail

    sum : all ≡ 0xffff + total words + byte_of tail
    sum =
        add_tail-byte_of (sum_words 0xffff words) tail (omega (arith, words_sum, total_le words w))
        ∙ omega (arith, words_sum)
      where
        words_sum : sum_words 0xffff words ≡ 0xffff + total words
        words_sum = sum_words-total 0xffff words (omega (arith, total_le words w))
