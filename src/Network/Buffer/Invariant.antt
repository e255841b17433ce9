-- ===== src/Network/Buffer/Invariant.antt =====
-- The representation invariant of `ArrayBuffer` (src/network/buffer.cc): the two indices are in order
-- and inside the storage.
use rproxy.Base.{
  ℕ, ◌+◌, ◌-◌, ◌≤◌, ◌<◌, ◌≡◌, ◌++◌, replicate, add_size, refl, ap, ◌∙◌, List, length, take, drop,
  arith, ok, length-append, length-take, length-drop, length-replicate, take-append_left,
  drop-append_left, Bool-cases, inl, inr, ltb, ltb→lt, not-ltb, ==_refl,
}
use mathlib.Core.Path.{ap₂}
use rproxy.Network.Buffer.{
  Buffer, max_size, prepend, readable_bytes, writable_bytes, grow, move_to_front, make_space,
  ensure_writable_bytes, prependable_bytes,
}
use rproxy.Network.Buffer.Storage.{
  read_range_lem, write_range_lem, resize_lem, read-write, length-write,
}

pub record IsValid (b : Buffer) : Type 0 where
  pub ordered : b.reader ≤ b.writer
  pub inside : b.writer ≤ length b.bytes
  pub small : length b.bytes ≤ max_size

-- The readable bytes, oldest first.
abbrev pub contents : Buffer → List ℕ
contents b = take (b.writer - b.reader) (drop b.reader b.bytes)

module _ {b : Buffer} (v : IsValid b) where
  pub readable_bytes_lem : readable_bytes b ≡ b.writer - b.reader
  unfolding readable_bytes
  readable_bytes_lem = omega arith

  pub writable_bytes_lem : writable_bytes b ≡ length b.bytes - b.writer
  unfolding writable_bytes
  writable_bytes_lem = omega arith

  pub length-contents : length (contents b) ≡ b.writer - b.reader
  length-contents = omega (
    arith,
    length-take {0} (b.writer - b.reader) (drop b.reader b.bytes),
    length-drop {0} b.reader b.bytes,
  )

-- What `ensureWritableBytes` leaves behind: room for `len` bytes, and the same readable bytes.
pub record HasRoom (len : ℕ) (b b' : Buffer) : Type 0 where
  pub valid : IsValid b'
  pub room : b'.writer + len ≤ length b'.bytes
  pub growth : length b'.bytes ≤ length b.bytes + len
  pub same : contents b' ≡ contents b

-- Longer storage holds the same readable bytes.
contents-extend :
    (r w : ℕ) (xs ys : List ℕ)
    → r ≤ w
    → w ≤ length xs
    → take (w - r) (drop r (xs ++ ys)) ≡ take (w - r) (drop r xs)
contents-extend r w xs ys p q =
    rw (drop-append_left r xs ys (omega arith))
      (take-append_left (w - r) (drop r xs) ys (omega (arith, length-drop {0} r xs)))

module _ {b : Buffer} (len : ℕ) (v : IsValid b) where
  grow-HasRoom :
      length b.bytes < b.writer + len
      → b.writer + len ≤ max_size
      → (b' : Buffer) × (grow len b ≡ ok b') × HasRoom len b b'
  unfolding grow
  grow-HasRoom short fits = (record b { bytes = longer }, run, room)
    where
      longer : List ℕ
      longer = b.bytes ++ replicate (b.writer + len - length b.bytes) 0

      no_wrap : add_size b.writer len ≡ b.writer + len
      no_wrap = omega arith

      run : grow len b ≡ ok (record b { bytes = longer })
      run = rw (no_wrap, resize_lem (b.writer + len) b.bytes (omega arith) fits)

      size : length longer ≡ b.writer + len
      size = omega (
        arith,
        length-append {0} b.bytes (replicate (b.writer + len - length b.bytes) 0),
        length-replicate {0} {A = ℕ} (b.writer + len - length b.bytes) 0,
      )

      room : HasRoom len b (record b { bytes = longer })
      room = record {
        valid = omega (arith, size);
        room = omega (arith, size);
        growth = omega (arith, size);
        same = contents-extend b.reader b.writer b.bytes _ v.ordered v.inside;
      }

  move_to_front-HasRoom :
      b.writer - b.reader + len ≤ length b.bytes
      → (b' : Buffer) × (move_to_front b ≡ ok b') × HasRoom len b b'
  unfolding move_to_front
  move_to_front-HasRoom fits = (moved, run, room)
    where
      kept : List ℕ
      kept = contents b

      size : length (contents b) ≡ b.writer - b.reader
      size = length-contents v

      moved : Buffer
      moved = record {
        reader = 0;
        writer = b.writer - b.reader;
        bytes = take 0 b.bytes ++ (kept ++ drop (0 + length kept) b.bytes);
      }

      length-moved : length moved.bytes ≡ length b.bytes
      length-moved = length-write 0 (contents b) b.bytes (omega (arith, size))

      moved-IsValid : IsValid moved
      moved-IsValid = omega (arith, length-moved)

      run : move_to_front b ≡ ok moved
      run = rw (
        readable_bytes_lem v,
        read_range_lem b.reader b.writer b.bytes v.ordered v.inside,
        write_range_lem 0 kept b.bytes (omega (arith, size)),
        no_wrap,
        back,
        ==_refl,
      )
        where
          no_wrap : add_size prepend (b.writer - b.reader) ≡ b.writer - b.reader
          no_wrap = omega arith

          back : readable_bytes moved ≡ b.writer - b.reader
          back = omega (arith, readable_bytes_lem moved-IsValid)

      front : contents moved ≡ contents b
      front =
          ap (λ n. take n (drop 0 moved.bytes)) (omega (arith, size))
          ∙ read-write 0 0 (contents b) b.bytes (omega arith) (omega (arith, size))

      room : HasRoom len b moved
      room = record {
        valid = moved-IsValid;
        room = omega (arith, length-moved);
        growth = omega (arith, length-moved);
        same = front;
      }

  -- Room for `len` more bytes is made without touching the readable ones.
  pub ensure_writable_bytes-HasRoom :
      b.writer + len ≤ max_size
      → (b' : Buffer) × (ensure_writable_bytes len b ≡ ok b') × HasRoom len b b'
  unfolding ensure_writable_bytes make_space prependable_bytes
  ensure_writable_bytes-HasRoom fits = elim (Bool-cases (ltb (length b.bytes - b.writer) len)) [
    | inl few ↦ elim (Bool-cases (ltb (length b.bytes - b.writer + b.reader) len)) [
      | inl short ↦
          rw (writable_bytes_lem v, few, total, short)
            (grow-HasRoom (omega (arith, ltb→lt _ _ short)) fits)
      | inr enough ↦
          rw (writable_bytes_lem v, few, total, enough)
            (move_to_front-HasRoom (omega (arith, not-ltb _ _ enough)))
    ]
    | inr enough ↦
        rw (writable_bytes_lem v, enough)
          (
            b,
            refl,
            record {
              valid = v;
              room = omega (arith, not-ltb _ _ enough);
              growth = omega arith;
              same = refl;
            },
          )
  ]
    where
      total :
          ltb (add_size (length b.bytes - b.writer) b.reader) (add_size len prepend)
          ≡ ltb (length b.bytes - b.writer + b.reader) len
      total = ap₂ ltb (omega arith) (omega arith)
