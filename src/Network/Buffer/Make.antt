-- ===== src/Network/Buffer/Make.antt =====
-- The constructors of `ArrayBuffer` (src/network/buffer.cc).
use rproxy.Base.{
  ℕ, ◌+◌, ◌≤◌, ◌≡◌, refl, ap, ◌∙◌, List, [], ◌++◌, length, take, drop, replicate, Option, none,
  some, arith, ok, err, logic_error, undefined, add_size, length-take, length-replicate, Bool-cases,
  inl, inr, ltb, ltb→lt, not-ltb, le→ltb, if◌then◌else◌,
}
use rproxy.Network.Buffer.{
  Buffer, max_size, packet_size, prepend, readable_bytes, make, from_bytes, read_caller, read_range,
}
use rproxy.Network.Buffer.Storage.{
  read_range_lem, read_range_past, write_range_lem, write_range_past, read-write, length-write,
}
use rproxy.Network.Buffer.Contents.{Implements}

-- A new buffer is valid, empty and as large as asked for.
make_lem : (init_size : ℕ) → init_size ≤ max_size → Implements init_size (make init_size) (ok [])
unfolding make
make_lem n h = rw (le→ltb max_size n h) (
  omega (arith, length-replicate {0} {A = ℕ} n 0),
  refl,
  omega (arith, length-replicate {0} {A = ℕ} n 0),
)

-- A buffer made from bytes holds them. More than `PACKETSIZE` of them, or a null pointer, is refused;
-- but bytes that exceed the storage asked for are written past its end.
pub from_bytes_lem :
    (ptr : Option (List ℕ)) (len init_size : ℕ)
    → init_size ≤ max_size
    → Implements init_size (from_bytes ptr len init_size) (elim ptr [
      | none ↦ err logic_error
      | some src ↦
          if ltb packet_size len
          then err logic_error
          else if ltb (length src) len
          then err undefined
          else if ltb init_size len
          then err undefined
          else ok (take len src)
    ])
unfolding from_bytes read_caller
from_bytes_lem none len n h = rw (le→ltb max_size n h)
from_bytes_lem (some src) len n h =
    rw (le→ltb max_size n h) (elim (Bool-cases (ltb packet_size len)) [
      | inl large ↦ rw large refl
      | inr fair ↦ elim (Bool-cases (ltb (length src) len)) [
        | inl short ↦ rw (fair, short, read_range_past 0 len src (ltb→lt _ _ short)) refl
        | inr enough ↦ elim (Bool-cases (ltb n len)) [
          | inl past ↦
              rw
                (
                  fair,
                  enough,
                  past,
                  copied (not-ltb _ _ enough),
                  write_range_past 0 (take len src) (replicate n 0)
                      (omega (arith, count (not-ltb _ _ enough), size, ltb→lt _ _ past)),
                )
                refl
          | inr room ↦
              rw
                (
                  fair,
                  enough,
                  room,
                  copied (not-ltb _ _ enough),
                  write_range_lem 0 (take len src) (replicate n 0)
                      (omega (arith, count (not-ltb _ _ enough), size, not-ltb _ _ room)),
                  no_wrap (not-ltb _ _ fair),
                )
                (filled (not-ltb _ _ enough) (not-ltb _ _ room))
        ]
      ]
    ])
  where
    size : length (replicate {A = ℕ} n 0) ≡ n
    size = length-replicate {0} {A = ℕ} n 0

    count : len ≤ length src → length (take len src) ≡ len
    count h = omega (arith, length-take {0} len src)

    copied : len ≤ length src → read_range 0 len src ≡ ok (take len src)
    copied h = read_range_lem 0 len src (omega arith) h ∙ ap (λ k. ok (take k src)) (omega arith)

    no_wrap : len ≤ packet_size → add_size prepend len ≡ len
    no_wrap h = omega arith

    longer :
        len ≤ length src
        → len ≤ n
        → length (take len src ++ drop (0 + length (take len src)) (replicate {A = ℕ} n 0)) ≡ n
    longer h k =
        length-write 0 (take len src) (replicate {A = ℕ} n 0) (omega (arith, count h, size)) ∙ size

    buffer : Buffer
    buffer = record {
      reader = prepend;
      writer = len;
      bytes = take len src ++ drop (0 + length (take len src)) (replicate {A = ℕ} n 0);
    }

    filled : len ≤ length src → len ≤ n → Implements n (ok buffer) (ok (take len src))
    filled p k = (
      omega (arith, longer p k),
      ap (λ m. take m (drop 0 buffer.bytes)) (omega (arith, count p))
          ∙ read-write 0 0 (take len src) (replicate {A = ℕ} n 0) (omega arith)
              (omega (arith, count p, size)),
      omega (arith, longer p k),
    )

-- A new buffer has nothing to read.
pub make_idle : (n : ℕ) → n ≤ max_size → (b : Buffer) × (make n ≡ ok b) × (readable_bytes b ≡ 0)
unfolding make readable_bytes
make_idle n h = rw (le→ltb max_size n h) (_, refl, refl)
