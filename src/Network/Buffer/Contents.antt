-- ===== src/Network/Buffer/Contents.antt =====
-- The operations of `ArrayBuffer` (src/network/buffer.cc) against the queue of bytes of `Spec`.
use rproxy.Base.{
  ℕ, ◌+◌, ◌-◌, ◌≤◌, ◌<◌, ◌≡◌, refl, ap, sym, ◌∙◌, ◌++◌, List, length, take, drop, Option, none,
  some, arith, Result, ok, err, length-take, Bool-cases, inl, inr, ltb, leb, ltb→lt, not-ltb,
  le→ltb, lt→leb, le→leb, add_size, logic_error, undefined, ◌>>=◌, ◌&&◌, if◌then◌else◌, false,
  drop_all, drop-drop, drop-take, take-take,
}
use rproxy.Network.Buffer.{
  Buffer, max_size, retrieve, retrieve_all, retrieve_until, retrieve_as_string, has_written, append,
  copy_in, read_caller, read_range,
}
use rproxy.Network.Buffer.Spec
use rproxy.Network.Buffer.Storage.{
  read_range_past, read_range_lem, write_range_lem, read-write, length-write,
}
use rproxy.Network.Buffer.Invariant.{
  IsValid, contents, readable_bytes_lem, writable_bytes_lem, length-contents,
  ensure_writable_bytes-HasRoom,
}

-- The buffer that results is valid, holds the queue that results and has at most `n` bytes of
-- storage; a failure is the same failure.
abbrev pub Implements : ℕ → Result Buffer → Result (List ℕ) → Type 0
Implements n (ok b) (ok q) = IsValid b × (contents b ≡ q) × (length b.bytes ≤ n)
Implements n (err e) (err f) = e ≡ f
Implements n (ok b) (err f) = ⊥
Implements n (err e) (ok q) = ⊥

-- Writing `src` where there is room.
copy_in-Implements :
    (b : Buffer) (len n : ℕ) (src : List ℕ)
    → IsValid b
    → len ≤ length src
    → b.writer + len ≤ length b.bytes
    → length b.bytes ≤ n
    → Implements n (copy_in src len b) (ok (contents b ++ take len src))
unfolding copy_in read_caller has_written
copy_in-Implements b len n src v h room size =
    rw
      (
        copied,
        write_range_lem b.writer (take len src) b.bytes (omega (arith, count)),
        writable_bytes_lem written-IsValid,
        enough,
        no_wrap,
      )
      (omega (arith, count, longer), same, omega (arith, longer))
  where
    count : length (take len src) ≡ len
    count = omega (arith, length-take {0} len src)

    copied : read_range 0 len src ≡ ok (take len src)
    copied = read_range_lem 0 len src (omega arith) h ∙ ap (λ k. ok (take k src)) (omega arith)

    written : Buffer
    written = record b {
      bytes =
          take b.writer b.bytes
          ++ (take len src ++ drop (b.writer + length (take len src)) b.bytes);
    }

    longer : length written.bytes ≡ length b.bytes
    longer = length-write b.writer (take len src) b.bytes (omega (arith, count))

    written-IsValid : IsValid written
    written-IsValid = omega (arith, longer)

    enough : ltb (length written.bytes - b.writer) len ≡ false
    enough = le→ltb _ _ (omega (arith, longer))

    no_wrap : add_size b.writer len ≡ b.writer + len
    no_wrap = omega arith

    same :
        take (b.writer + len - b.reader) (drop b.reader written.bytes) ≡ contents b ++ take len src
    same =
        ap (λ k. take (b.writer + k - b.reader) (drop b.reader written.bytes)) (sym count)
        ∙ read-write b.reader b.writer (take len src) b.bytes v.ordered (omega (arith, count))

-- `append` puts the first `len` bytes of `data` behind those that are there, whether it moves them to
-- the front, makes the storage longer or neither; a null pointer is refused.
pub append_refines :
    (b : Buffer) (src : Option (List ℕ)) (len : ℕ)
    → IsValid b
    → b.writer + len ≤ max_size
    → Implements (length b.bytes + len) (append src len b) (Spec.append src len (contents b))
unfolding append copy_in read_caller
append_refines b none len v fits = refl
append_refines b (some src) len v fits =
    let (b', made, r) = ensure_writable_bytes-HasRoom len v fits in
    elim (Bool-cases (ltb (length src) len)) [
      | inl short ↦ rw (made, short, ◌>>=◌, short_read (ltb→lt _ _ short)) refl
      | inr enough ↦
          rw (made, enough, ◌>>=◌, ← r.same)
            (copy_in-Implements b' len _ src r.valid (not-ltb _ _ enough) r.room r.growth)
    ]
  where
    short_read : length src < len → (b' : Buffer) → copy_in src len b' ≡ err undefined
    short_read h b' = rw (copy_in, read_range_past 0 len src h)

-- `retrieve` drops bytes from the front, and refuses to drop more than there are.
pub retrieve_refines :
    (b : Buffer) (len : ℕ)
    → IsValid b
    → Implements (length b.bytes) (retrieve len b) (Spec.retrieve len (contents b))
unfolding retrieve retrieve_all
retrieve_refines b len v =
    rw (readable_bytes_lem v, length-contents v)
      (elim (Bool-cases (ltb readable len)) [
        | inl over ↦ rw over refl
        | inr within ↦ elim (Bool-cases (ltb len readable)) [
          | inl some_left ↦
              rw (within, some_left, no_wrap (ltb→lt _ _ some_left))
                (omega (arith, ltb→lt _ _ some_left), moved (ltb→lt _ _ some_left), omega arith)
          | inr none_left ↦
              rw (within, none_left)
                (
                  omega arith,
                  sym (
                      drop_all len (contents b)
                        (omega (arith, length-contents v, not-ltb _ _ none_left))),
                  omega arith,
                )
        ]
      ])
  where
    readable : ℕ
    readable = b.writer - b.reader

    no_wrap : len < readable → add_size b.reader len ≡ b.reader + len
    no_wrap h = omega arith

    moved :
        len < readable
        → take (b.writer - (b.reader + len)) (drop (b.reader + len) b.bytes) ≡ drop len (contents b)
    moved h =
        ap (take (b.writer - (b.reader + len)))
          (sym (drop-drop b.reader len (b.reader + len) b.bytes refl))
        ∙ sym (
            drop-take len (b.writer - b.reader) (b.writer - (b.reader + len))
              (drop b.reader b.bytes) (omega arith))

-- What a client sees of a call that returns text.
abbrev pub ImplementsText : ℕ → Result (List ℕ × Buffer) → Result (List ℕ × List ℕ) → Type 0
ImplementsText n (ok (s, b)) (ok (t, q)) =
    (s ≡ t) × IsValid b × (contents b ≡ q) × (length b.bytes ≤ n)
ImplementsText n (err e) (err f) = e ≡ f
ImplementsText n (ok r) (err f) = ⊥
ImplementsText n (err e) (ok r) = ⊥

with_text :
    (n : ℕ) (s : List ℕ) (r : Result Buffer) (q : List ℕ)
    → Implements n r (ok q)
    → ImplementsText n (r >>= λ b. ok (s, b)) (ok (s, q))
with_text n s (ok b) q h = (refl, h.0, h.1, h.2)
with_text n s (err e) q h = absurd h

-- `retrieveAsString` returns the oldest bytes and drops them, or refuses where there are fewer.
pub retrieve_as_string_refines :
    (b : Buffer) (len : ℕ)
    → IsValid b
    → ImplementsText (length b.bytes) (retrieve_as_string len b) (Spec.take_string len (contents b))
unfolding retrieve_as_string
retrieve_as_string_refines b len v =
    rw (readable_bytes_lem v, length-contents v)
      (elim (Bool-cases (ltb (b.writer - b.reader) len)) [
        | inl over ↦ rw over refl
        | inr within ↦
            rw (within, seen (not-ltb _ _ within))
              (with_text _ _ (retrieve len b) (drop len (contents b)) (dropped within))
      ])
  where
    seen :
        len ≤ b.writer - b.reader
        → read_range b.reader (b.reader + len) b.bytes ≡ ok (take len (contents b))
    seen h =
        read_range_lem b.reader (b.reader + len) b.bytes (omega arith) (omega arith)
        ∙ ap ok (
            ap (λ k. take k (drop b.reader b.bytes)) (omega arith)
            ∙ sym (take-take len (b.writer - b.reader) (drop b.reader b.bytes) h))

    dropped :
        ltb (b.writer - b.reader) len ≡ false
        → Implements (length b.bytes) (retrieve len b) (ok (drop len (contents b)))
    dropped within = rw (length-contents v, within) at (retrieve_refines b len v)

-- `retrieveUntil` drops the bytes before the given position, or refuses one outside the readable part.
pub retrieve_until_refines :
    (b : Buffer) (end : ℕ)
    → IsValid b
    → Implements (length b.bytes) (retrieve_until end b) (
        if leb b.reader end && leb end b.writer
        then Spec.retrieve (end - b.reader) (contents b)
        else err logic_error)
unfolding retrieve_until
retrieve_until_refines b end v = elim (Bool-cases (ltb end b.reader)) [
  | inl before ↦ rw (before, lt→leb _ _ (ltb→lt _ _ before)) refl
  | inr from ↦ elim (Bool-cases (ltb b.writer end)) [
    | inl past ↦ rw (from, past, le→leb _ _ (not-ltb _ _ from), lt→leb _ _ (ltb→lt _ _ past)) refl
    | inr upto ↦
        rw (from, upto, le→leb _ _ (not-ltb _ _ from), le→leb _ _ (not-ltb _ _ upto))
          (retrieve_refines b (end - b.reader) v)
  ]
]
