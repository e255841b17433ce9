-- ===== src/Network/Buffer/Storage.antt =====
-- The storage of `ArrayBuffer` (src/network/buffer.cc): what reads and writes inside it give.
use rproxy.Base.{
  ℕ, ◌+◌, ◌-◌, ◌≤◌, ◌≡◌, ap, ◌∙◌, List, ◌++◌, append-nil, length, take, drop, replicate, arith, ok,
  err, undefined, ◌<◌, le→leb, le→ltb, length-append, length-take, length-drop, take-append_right,
  drop-append_left, drop-take, take_all,
}
use mathlib.Core.Path.{◌≡⟨◌⟩◌, ◌∎}
use rproxy.Network.Buffer.{max_size, read_range, write_range, resize}

pub read_range_lem :
    (i j : ℕ) (xs : List ℕ)
    → i ≤ j
    → j ≤ length xs
    → read_range i j xs ≡ ok (take (j - i) (drop i xs))
unfolding read_range
read_range_lem i j xs p q = rw (le→leb i j p, le→leb j (length xs) q)

pub read_range_past : (i j : ℕ) (xs : List ℕ) → length xs < j → read_range i j xs ≡ err undefined
unfolding read_range
read_range_past i j xs p = ground arith

pub write_range_lem :
    (i : ℕ) (src xs : List ℕ)
    → i + length src ≤ length xs
    → write_range i src xs ≡ ok (take i xs ++ (src ++ drop (i + length src) xs))
unfolding write_range
write_range_lem i src xs p = rw (le→leb _ _ p)

pub write_range_past :
    (i : ℕ) (src xs : List ℕ) → length xs < i + length src → write_range i src xs ≡ err undefined
unfolding write_range
write_range_past i src xs p = ground arith

pub resize_lem :
    (n : ℕ) (xs : List ℕ)
    → length xs ≤ n
    → n ≤ max_size
    → resize n xs ≡ ok (xs ++ replicate (n - length xs) 0)
unfolding resize
resize_lem n xs p q = rw (le→ltb max_size n q, take_all n xs p)

-- A write, read back from where it begins.
read-write_front :
    (src xs : List ℕ) (w : ℕ) → take (length src) (src ++ drop (w + length src) xs) ≡ src
read-write_front src xs w =
    take-append_right (length src) 0 src (drop (w + length src) xs) (omega arith) ∙ append-nil src

-- A write at `w`, read back from `r` to its end.
pub read-write :
    (r w : ℕ) (src xs : List ℕ)
    → r ≤ w
    → w + length src ≤ length xs
    → take (w + length src - r) (drop r (take w xs ++ (src ++ drop (w + length src) xs)))
      ≡ take (w - r) (drop r xs) ++ src
read-write r w src xs p q =
    take (w + length src - r) (drop r (take w xs ++ rest))
    ≡⟨ ap (take (w + length src - r)) kept ⟩ take (w + length src - r) (window ++ rest)
    ≡⟨ take-append_right _ (length src) window rest (omega (arith, size)) ⟩
      window ++ take (length src) rest
    ≡⟨ ap (◌++◌ window) (read-write_front src xs w) ⟩ window ++ src ∎
  where
    rest : List ℕ
    rest = src ++ drop (w + length src) xs

    window : List ℕ
    window = take (w - r) (drop r xs)

    size : length (take (w - r) (drop r xs)) ≡ w - r
    size = omega (arith, length-take {0} (w - r) (drop r xs), length-drop {0} r xs)

    kept : drop r (take w xs ++ rest) ≡ window ++ rest
    kept =
        drop-append_left r (take w xs) rest (omega (arith, length-take {0} w xs))
        ∙ ap (λ ys. ys ++ rest) (drop-take r w (w - r) xs (omega arith))

pub length-write :
    (i : ℕ) (src xs : List ℕ)
    → i + length src ≤ length xs
    → length (take i xs ++ (src ++ drop (i + length src) xs)) ≡ length xs
length-write i src xs p = omega (
  arith,
  length-append {0} (take i xs) (src ++ drop (i + length src) xs),
  length-append {0} src (drop (i + length src) xs),
  length-take {0} i xs,
  length-drop {0} (i + length src) xs,
)
