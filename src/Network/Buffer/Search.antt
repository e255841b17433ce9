-- ===== src/Network/Buffer/Search.antt =====
-- `findEOL` of `ArrayBuffer` (src/network/buffer.cc): where the first end of line stands.
use rproxy.Base.{
  ℕ, zero, suc, ◌+◌, ◌-◌, ◌≤◌, ◌<◌, ◌≡◌, refl, ap, ◌∙◌, ◌≢◌, List, [], ◌∷◌, take, drop, get_elem?,
  Option, none, some, arith, ok, ◌==◌, ==_iff, sym, drop-drop, drop-take, le→ltb, Bool-cases, inl,
  inr,
}
use native.Mathlib.Numerals.{add-one}
use rproxy.Network.Buffer.{Buffer, newline, mem_chr, find_eol, find_eol_from, offset_by, read_range}
use rproxy.Network.Buffer.Storage.{read_range_lem}
use rproxy.Network.Buffer.Invariant.{IsValid, contents, readable_bytes_lem}

-- What a search for `c` in `xs` finds: the place of the first `c`, or that there is none.
abbrev pub Finds : ℕ → List ℕ → Option ℕ → Type 0
Finds c xs none = (i : ℕ) → get_elem? xs i ≢ some c
Finds c xs (some i) = (get_elem? xs i ≡ some c) × ((j : ℕ) → j < i → get_elem? xs j ≢ some c)

absent-cons :
    (c x : ℕ) (xs : List ℕ) (i : ℕ)
    → x ≢ c
    → ((j : ℕ) → i ≡ suc j → get_elem? xs j ≢ some c)
    → get_elem? (x ∷ xs) i ≢ some c
absent-cons c x xs zero ne later e = ne (ground arith)
absent-cons c x xs (suc i) ne later e = later i refl e

Finds-cons :
    (c x : ℕ) (xs : List ℕ) (r : Option ℕ)
    → x ≢ c
    → Finds c xs r
    → Finds c (x ∷ xs) (elim r [ none ↦ none | some i ↦ some (i + 1) ])
Finds-cons c x xs none ne f = λ i. absent-cons c x xs i ne (λ j _. f j)
Finds-cons c x xs (some i) ne f =
    rw add-one (f.0, λ j h. absent-cons c x xs j ne (λ k e. f.1 k (omega arith)))

-- `memchr` finds the first occurrence.
mem_chr-Finds : (c : ℕ) (xs : List ℕ) → Finds c xs (mem_chr c xs)
unfolding mem_chr
mem_chr-Finds c [] = λ i. cc
mem_chr-Finds c (x ∷ xs) = elim (Bool-cases (x == c)) [
  | inl hit ↦ rw hit (ap some ((==_iff x c).0 hit), λ j h. absurd (omega arith))
  | inr miss ↦ rw miss (Finds-cons c x xs (mem_chr c xs) (ground arith) (mem_chr-Finds c xs))
]

-- `findEOL()`, which cannot fail on a valid buffer, points at the first newline of the readable bytes,
-- or gives null if they hold none.
pub find_eol-Finds :
    (b : Buffer)
    → IsValid b
    → (r : Option ℕ) × (find_eol b ≡ ok (offset_by b.reader r)) × Finds newline (contents b) r
unfolding find_eol
find_eol-Finds b v = (
  mem_chr newline (contents b),
  rw (readable_bytes_lem v, seen),
  mem_chr-Finds newline (contents b),
)
  where
    seen : read_range b.reader (b.reader + (b.writer - b.reader)) b.bytes ≡ ok (contents b)
    seen =
        read_range_lem b.reader (b.reader + (b.writer - b.reader)) b.bytes (omega arith)
          (omega arith)
        ∙ ap (λ n. ok (take n (drop b.reader b.bytes))) (omega arith)

-- `findEOL(start)` searches from a position inside the readable bytes on, and refuses any other.
pub find_eol_from-Finds :
    (b : Buffer) (start : ℕ)
    → IsValid b
    → b.reader ≤ start
    → start ≤ b.writer
    → (r : Option ℕ) × (find_eol_from b start ≡ ok (offset_by start r))
      × Finds newline (drop (start - b.reader) (contents b)) r
unfolding find_eol_from
find_eol_from-Finds b start v from upto = (
  mem_chr newline rest,
  rw (le→ltb start b.reader from, le→ltb b.writer start upto, seen),
  mem_chr-Finds newline rest,
)
  where
    rest : List ℕ
    rest = drop (start - b.reader) (contents b)

    seen : read_range start b.writer b.bytes ≡ ok rest
    seen =
        read_range_lem start b.writer b.bytes upto v.inside
        ∙ ap ok (
            ap (take (b.writer - start))
              (sym (drop-drop b.reader (start - b.reader) start b.bytes (omega arith)))
            ∙ sym (
                drop-take (start - b.reader) (b.writer - b.reader) (b.writer - start)
                  (drop b.reader b.bytes) (omega arith)))
