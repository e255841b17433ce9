-- ===== src/Network/Buffer/Run.antt =====
-- Any sequence of calls of one `ArrayBuffer` (src/network/buffer.cc) against the queue of `Spec`.
use rproxy.Base.{
  ℕ, ◌+◌, ◌-◌, le→ltb, take_all, drop_all, ◌≤◌, ◌≡◌, refl, ap, ap₂, ◌∙◌, add-zero, List, [], ◌∷◌,
  length, some, arith, Result, ok, err,
}
use rproxy.Network.Buffer.{
  Buffer, max_size, append, retrieve, retrieve_all, retrieve_as_string, retrieve_all_as_string,
}
use rproxy.Network.Buffer.Spec
use rproxy.Network.Buffer.Invariant.{IsValid, contents, readable_bytes_lem, length-contents}
use rproxy.Network.Buffer.Contents.{
  Implements, ImplementsText, append_refines, retrieve_refines, retrieve_as_string_refines,
}

-- The calls of a client: `put` appends all the bytes given to it.
pub data Op : Type 0 where
  put : List ℕ → Op
  skip text : ℕ → Op
  text_all clear : Op

-- The text returned (empty for a call that returns none), or the failure.
abbrev pub Reply : Type 0
Reply = Result (List ℕ)

-- A call that fails leaves the object as it was.
abbrev after {ℓ} : {S : Type ℓ} → S → Result S → Reply × S
after s (ok t) = (ok [], t)
after s (err e) = (err e, s)

abbrev after_text {ℓ} : {S : Type ℓ} → S → Result (List ℕ × S) → Reply × S
after_text s (ok (r, t)) = (ok r, t)
after_text s (err e) = (err e, s)

unfoldable pub step : Buffer → Op → Reply × Buffer
step b (put src) = after b (append (some src) (length src) b)
step b (skip n) = after b (retrieve n b)
step b (text n) = after_text b (retrieve_as_string n b)
step b text_all = after_text b (retrieve_all_as_string b)
step b clear = after b (ok (retrieve_all b))

unfoldable pub run : Buffer → List Op → List Reply
run b [] = []
run b (op ∷ ops) = let (r, b') = step b op in r ∷ run b' ops

-- The same calls of the queue.
unfoldable pub spec_step : List ℕ → Op → Reply × List ℕ
spec_step q (put src) = after q (Spec.append (some src) (length src) q)
spec_step q (skip n) = after q (Spec.retrieve n q)
spec_step q (text n) = after_text q (Spec.take_string n q)
spec_step q text_all = (ok q, [])
spec_step q clear = (ok [], [])

unfoldable pub spec_run : List ℕ → List Op → List Reply
spec_run q [] = []
spec_run q (op ∷ ops) = let (r, q') = spec_step q op in r ∷ spec_run q' ops

-- The bytes that the calls append.
abbrev pub load : Op → ℕ
load (put src) = length src
load _ = 0

abbrev pub loads : List Op → ℕ
loads [] = 0
loads (op ∷ ops) = load op + loads ops

-- One step on both sides.
abbrev Agrees : ℕ → Reply × Buffer → Reply × List ℕ → Type 0
Agrees n (r, b) (s, q) = (r ≡ s) × IsValid b × (contents b ≡ q) × (length b.bytes ≤ n)

after-Agrees :
    (n : ℕ) (b : Buffer) (r : Result Buffer) (s : Result (List ℕ))
    → IsValid b
    → length b.bytes ≤ n
    → Implements n r s
    → Agrees n (after b r) (after (contents b) s)
after-Agrees n b (ok c) (ok q) v h i = (refl, i.0, i.1, i.2)
after-Agrees n b (err e) (err f) v h i = (ap err i, v, refl, h)
after-Agrees n b (ok c) (err f) v h i = absurd i
after-Agrees n b (err e) (ok q) v h i = absurd i

after_text-Agrees :
    (n : ℕ) (b : Buffer) (r : Result (List ℕ × Buffer)) (s : Result (List ℕ × List ℕ))
    → IsValid b
    → length b.bytes ≤ n
    → ImplementsText n r s
    → Agrees n (after_text b r) (after_text (contents b) s)
after_text-Agrees n b (ok (x, c)) (ok (y, q)) v h i = (ap ok i.0, i.1, i.2, i.3)
after_text-Agrees n b (err e) (err f) v h i = (ap err i, v, refl, h)
after_text-Agrees n b (ok c) (err f) v h i = absurd i
after_text-Agrees n b (err e) (ok q) v h i = absurd i

take_string_all :
    (b : Buffer)
    → IsValid b
    → Spec.take_string (b.writer - b.reader) (contents b) ≡ ok (contents b, [])
take_string_all b v = rw (
  length-contents v,
  le→ltb (b.writer - b.reader) (b.writer - b.reader) (omega arith),
  take_all (b.writer - b.reader) (contents b) (omega (arith, length-contents v)),
  drop_all (b.writer - b.reader) (contents b) (omega (arith, length-contents v)),
)

step-Agrees :
    (b : Buffer) (op : Op)
    → IsValid b
    → length b.bytes + load op ≤ max_size
    → Agrees (length b.bytes + load op) (step b op) (spec_step (contents b) op)
unfolding step spec_step retrieve_all_as_string retrieve_all
step-Agrees b (put src) v fits =
    after-Agrees _ b (append (some src) (length src) b)
      (Spec.append (some src) (length src) (contents b)) v (omega arith)
      (append_refines b (some src) (length src) v (omega arith))
step-Agrees b (skip n) v fits = rw add-zero (
    after-Agrees _ b (retrieve n b) (Spec.retrieve n (contents b)) v (omega arith)
      (retrieve_refines b n v))
step-Agrees b (text n) v fits = rw add-zero (
    after_text-Agrees _ b (retrieve_as_string n b) (Spec.take_string n (contents b)) v (omega arith)
      (retrieve_as_string_refines b n v))
step-Agrees b text_all v fits =
    rw (add-zero, readable_bytes_lem v)
      (after_text-Agrees _ b (retrieve_as_string (b.writer - b.reader) b) (ok (contents b, [])) v
        (omega arith)
        (rw (take_string_all b v) at (retrieve_as_string_refines b (b.writer - b.reader) v)))
step-Agrees b clear v fits = (refl, omega arith, refl, omega arith)

-- Whatever is called in whatever order, the buffer replies as the queue of its readable bytes does, as
-- long as the storage and all that is appended stay below what a vector can hold.
pub run_refines :
    (b : Buffer) (ops : List Op)
    → IsValid b
    → length b.bytes + loads ops ≤ max_size
    → run b ops ≡ spec_run (contents b) ops
unfolding run spec_run
run_refines b [] v fits = refl
run_refines b (op ∷ ops) v fits =
    let a = step-Agrees b op v (omega arith) in
    ap₂ ◌∷◌ a.0 (run_refines (step b op).1 ops a.1 (omega arith) ∙ ap (λ q. spec_run q ops) a.2)
