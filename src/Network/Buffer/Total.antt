-- ===== src/Network/Buffer/Total.antt =====
-- The calls of `ArrayBuffer` (src/network/buffer.cc) that cannot fail, for the code that makes them.
use rproxy.Base.{
  ℕ, ◌+◌, ◌-◌, ◌≤◌, ◌≡◌, refl, ◌∙◌, ap, List, [], ◌++◌, length, take, drop, some, arith, Result, ok,
  err, le→ltb, take_all, ltb, false, add_size,
}
use rproxy.Network.Buffer.{
  Buffer, max_size, append, retrieve, readable_bytes, read_caller, read_range, peek, has_written,
  writable_bytes,
}
use rproxy.Network.Buffer.Storage.{read_range_lem}
use rproxy.Network.Buffer.Invariant.{IsValid, contents, readable_bytes_lem, writable_bytes_lem}
use rproxy.Network.Buffer.Contents.{Implements, append_refines, retrieve_refines}

-- A call that gives a valid buffer with the given contents.
abbrev pub Gives : Result Buffer → List ℕ → Type 0
Gives r q = (b : Buffer) × (r ≡ ok b) × IsValid b × (contents b ≡ q)

gives : (n : ℕ) (r : Result Buffer) (q : List ℕ) → Implements n r (ok q) → Gives r q
gives n (ok b) q i = (b, refl, i.0, i.1)
gives n (err e) q i = absurd i

pub append-Gives :
    (b : Buffer) (src : List ℕ)
    → IsValid b
    → b.writer + length src ≤ max_size
    → Gives (append (some src) (length src) b) (contents b ++ src)
append-Gives b src v fits = gives _ (append (some src) (length src) b) (contents b ++ src) (
    rw (le→ltb (length src) (length src) (omega arith), take_all (length src) src (omega arith)) at
      (append_refines b (some src) (length src) v fits))

pub retrieve-Gives :
    (b : Buffer) (len : ℕ)
    → IsValid b
    → len ≤ length (contents b)
    → Gives (retrieve len b) (drop len (contents b))
retrieve-Gives b len v h =
    gives _ (retrieve len b) (drop len (contents b))
      (rw (le→ltb (length (contents b)) len h) at (retrieve_refines b len v))

-- All that is readable, as a caller reads it from `peek()` on.
pub read_all :
    (b : Buffer)
    → IsValid b
    → read_range (peek b) (peek b + readable_bytes b) b.bytes ≡ ok (contents b)
read_all b v = rw (readable_bytes_lem v) (
    read_range_lem b.reader (b.reader + (b.writer - b.reader)) b.bytes (omega arith) (omega arith)
    ∙ ap (λ n. ok (take n (drop b.reader b.bytes))) (omega arith))

pub read_caller_lem :
    (src : List ℕ) (len : ℕ) → len ≤ length src → read_caller src len ≡ ok (take len src)
unfolding read_caller
read_caller_lem src len h =
    read_range_lem 0 len src (omega arith) h ∙ ap (λ k. ok (take k src)) (omega arith)

pub contents_empty : (b : Buffer) → IsValid b → readable_bytes b ≡ 0 → contents b ≡ []
contents_empty b v h = ap (λ n. take n (drop b.reader b.bytes)) none_left
  where
    none_left : b.writer - b.reader ≡ 0
    none_left = omega (arith, readable_bytes_lem v)

pub has_written_lem :
    (b : Buffer) (len : ℕ)
    → IsValid b
    → b.writer + len ≤ length b.bytes
    → has_written len b ≡ ok (record b { writer = b.writer + len })
unfolding has_written
has_written_lem b len v fits = rw (room, no_wrap) refl
  where
    room : ltb (writable_bytes b) len ≡ false
    room = ground (arith, writable_bytes_lem v)

    no_wrap : add_size b.writer len ≡ b.writer + len
    no_wrap = omega arith
