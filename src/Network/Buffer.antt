-- ===== src/Network/Buffer.antt =====
-- src/network/buffer.hpp and buffer.cc: `ArrayBuffer`, bytes between a read index and a write index.
-- A pointer into the storage is its index, and a `char const *` of the caller is `none` (null) or the
-- bytes that stand there. Bytes are only moved and compared, so a byte is a number.
pub mod Spec
pub mod Storage
pub mod Invariant
pub mod Search
pub mod Contents
pub mod Run
pub mod Make
pub mod Total
mod Tests
use rproxy.Base.{
  ℕ, ◌+◌, ◌-◌, ◌^◌, Bool, ◌&&◌, ◌||◌, not, Option, none, some, List, [], ◌∷◌, ◌++◌, length, take,
  drop, replicate, ltb, leb, ◌==◌, if◌then◌else◌, add_size, sub_size, Result, ok, err, require,
  ◌>>=◌, ◌>>◌, logic_error, runtime_error, length_error, undefined,
}

-- `PACKETSIZE` and `PREPEND`
abbrev pub packet_size : ℕ
packet_size = 40960

abbrev pub prepend : ℕ
prepend = 0

-- `std::vector<char>::max_size()`
abbrev pub max_size : ℕ
max_size = 2 ^ 63 - 1

pub record Buffer : Type 0 where
  pub reader : ℕ
  pub writer : ℕ
  pub bytes : List ℕ

-- `std::vector<char>(n)`
pub new_vector : ℕ → Result (List ℕ)
new_vector n = if ltb max_size n then err length_error else ok (replicate n 0)

-- `std::vector<char>::resize(n)`: cuts, or fills up with zeros.
pub resize : ℕ → List ℕ → Result (List ℕ)
resize n xs =
    if ltb max_size n then err length_error else ok (take n xs ++ replicate (n - length xs) 0)

-- The bytes from index `i` up to index `j`, both inside the storage.
pub read_range : ℕ → ℕ → List ℕ → Result (List ℕ)
read_range i j xs = do
  require (leb i j && leb j (length xs)) undefined
  ok (take (j - i) (drop i xs))

-- A write of `src` from index `i` on, inside the storage.
pub write_range : ℕ → List ℕ → List ℕ → Result (List ℕ)
write_range i src xs = do
  require (leb (i + length src) (length xs)) undefined
  ok (take i xs ++ (src ++ drop (i + length src) xs))

-- The first `len` bytes at a pointer of the caller.
pub read_caller : List ℕ → ℕ → Result (List ℕ)
read_caller src len = read_range 0 len src

-- `memchr(_, c, _)` over the given bytes, as an offset.
pub mem_chr : ℕ → List ℕ → Option ℕ
mem_chr c [] = none
mem_chr c (x ∷ xs) =
    let rest = mem_chr c xs in
    if x == c then some 0 else elim rest [ none ↦ none | some i ↦ some (i + 1) ]

abbrev pub newline : ℕ
newline = 10

-- `ArrayBuffer(size_t initSize)`
pub make : ℕ → Result Buffer
unfolding new_vector
make init_size = do
  bytes ← new_vector init_size
  ok (record { reader = prepend; writer = prepend; bytes = bytes })

-- `ArrayBuffer(char const * ptr, size_t len, size_t initSize)`
pub from_bytes : Option (List ℕ) → ℕ → ℕ → Result Buffer
unfolding new_vector
from_bytes none len init_size = do bytes ← new_vector init_size; err logic_error
from_bytes (some src) len init_size = do
  bytes ← new_vector init_size
  require (not (ltb packet_size len)) logic_error
  copied ← read_caller src len
  bytes' ← write_range 0 copied bytes
  ok (record { reader = prepend; writer = add_size prepend len; bytes = bytes' })

pub swap : Buffer → Buffer → Buffer × Buffer
swap a b = (b, a)

pub readable_bytes : Buffer → ℕ
readable_bytes b = sub_size b.writer b.reader

pub writable_bytes : Buffer → ℕ
writable_bytes b = sub_size (length b.bytes) b.writer

pub prependable_bytes : Buffer → ℕ
prependable_bytes b = b.reader

-- `peek()` and `beginWrite()`
abbrev pub peek : Buffer → ℕ
peek b = b.reader

abbrev pub begin_write : Buffer → ℕ
begin_write b = b.writer

pub offset_by : ℕ → Option ℕ → Option ℕ
offset_by k none = none
offset_by k (some i) = some (k + i)

-- `findEOL()`
pub find_eol : Buffer → Result (Option ℕ)
unfolding offset_by
find_eol b = do
  seen ← read_range (peek b) (peek b + readable_bytes b) b.bytes
  ok (offset_by (peek b) (mem_chr newline seen))

-- `findEOL(char const * start)`
pub find_eol_from : Buffer → ℕ → Result (Option ℕ)
unfolding offset_by
find_eol_from b start = do
  require (not (ltb start (peek b))) runtime_error
  require (not (ltb (begin_write b) start)) runtime_error
  seen ← read_range start (begin_write b) b.bytes
  ok (offset_by start (mem_chr newline seen))

pub retrieve_all : Buffer → Buffer
retrieve_all b = record b { reader = prepend; writer = prepend }

pub retrieve : ℕ → Buffer → Result Buffer
retrieve len b = do
  require (not (ltb (readable_bytes b) len)) logic_error
  ok (
      if ltb len (readable_bytes b)
      then record b { reader = add_size b.reader len }
      else retrieve_all b)

-- `retrieveUntil(char const * end)`
pub retrieve_until : ℕ → Buffer → Result Buffer
retrieve_until end b = do
  require (not (ltb end (peek b) || ltb (begin_write b) end)) logic_error
  retrieve (end - peek b) b

-- `retrieveAsString(size_t len)`
pub retrieve_as_string : ℕ → Buffer → Result (List ℕ × Buffer)
retrieve_as_string len b = do
  require (not (ltb (readable_bytes b) len)) logic_error
  result ← read_range (peek b) (peek b + len) b.bytes
  b' ← retrieve len b
  ok (result, b')

pub retrieve_all_as_string : Buffer → Result (List ℕ × Buffer)
retrieve_all_as_string b = retrieve_as_string (readable_bytes b) b

-- `retrieveInt64()` and so on: `sizeof` of the type
pub retrieve_int64 : Buffer → Result Buffer
retrieve_int64 b = retrieve 8 b

pub retrieve_int32 : Buffer → Result Buffer
retrieve_int32 b = retrieve 4 b

pub retrieve_int16 : Buffer → Result Buffer
retrieve_int16 b = retrieve 2 b

pub retrieve_int8 : Buffer → Result Buffer
retrieve_int8 b = retrieve 1 b

-- `hasWritten(size_t len)`
pub has_written : ℕ → Buffer → Result Buffer
has_written len b = do
  require (not (ltb (writable_bytes b) len)) logic_error
  ok (record b { writer = add_size b.writer len })

-- The branch of `makeSpace` that moves the readable bytes to the front.
pub move_to_front : Buffer → Result Buffer
move_to_front b =
    let readable = readable_bytes b in
    do
      kept ← read_range b.reader b.writer b.bytes
      bytes' ← write_range prepend kept b.bytes
      let b' : Buffer = record {
        reader = prepend;
        writer = add_size prepend readable;
        bytes = bytes';
      }
      require (readable == readable_bytes b') logic_error
      ok b'

-- The branch of `makeSpace` that makes the storage longer.
pub grow : ℕ → Buffer → Result Buffer
grow len b = do bytes' ← resize (add_size b.writer len) b.bytes; ok (record b { bytes = bytes' })

pub make_space : ℕ → Buffer → Result Buffer
make_space len b =
    if ltb (add_size (writable_bytes b) (prependable_bytes b)) (add_size len prepend)
    then grow len b
    else move_to_front b

pub ensure_writable_bytes : ℕ → Buffer → Result Buffer
ensure_writable_bytes len b = if ltb (writable_bytes b) len then make_space len b else ok b

-- The copy and the `hasWritten` that end `append`.
pub copy_in : List ℕ → ℕ → Buffer → Result Buffer
copy_in src len b = do
  copied ← read_caller src len
  bytes' ← write_range (begin_write b) copied b.bytes
  has_written len (record b { bytes = bytes' })

-- `append(char const * data, size_t len)`, which `append(void const *, size_t)` calls.
pub append : Option (List ℕ) → ℕ → Buffer → Result Buffer
append none len b = err logic_error
append (some src) len b = do b₁ ← ensure_writable_bytes len b; copy_in src len b₁
