-- ===== src/Network/Buffer/Spec.antt =====
-- What `ArrayBuffer` of src/network/buffer.cc promises: a queue of bytes, taken from the front and
-- filled at the back, with the failures that a client can cause.
use rproxy.Base.{
  ℕ, Option, none, some, List, ◌++◌, length, take, drop, ltb, if◌then◌else◌, Result, ok, err,
  logic_error, undefined,
}

abbrev pub append : Option (List ℕ) → ℕ → List ℕ → Result (List ℕ)
append none len q = err logic_error
append (some src) len q = if ltb (length src) len then err undefined else ok (q ++ take len src)

abbrev pub retrieve : ℕ → List ℕ → Result (List ℕ)
retrieve n q = if ltb (length q) n then err logic_error else ok (drop n q)

abbrev pub take_string : ℕ → List ℕ → Result (List ℕ × List ℕ)
take_string n q = if ltb (length q) n then err logic_error else ok (take n q, drop n q)
