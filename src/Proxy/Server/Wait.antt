-- ===== src/Proxy/Server/Wait.antt =====
-- `updateForWait` of src/proxy/proxy_server.cc: the backends whose sockets close leave, and no others.
use rproxy.Base.{
  ℕ, Bool, true, false, ◌&&◌, ◌||◌, ◌≡◌, refl, ap, ◌∙◌, none, some, List, [], ◌∷◌, ◌++◌,
  if◌then◌else◌, arith, Result, ok, Bool-cases, Option-cases, inl, inr,
}
use rproxy.Base.Eq.{nat_eq, same}
use rproxy.Base.Maps.{find, has_key, erase, find-erase, contains}
use rproxy.Pubsub.Event.{dmp_wait, wait_ctx, Resp}
use rproxy.Network.Demultiplex.{readable, closable, meets, closes}
use rproxy.Proxy.Server.{
  ProxyServer, Kernel, close_backend, answer_client, wait_one, update_for_wait, update,
}
use rproxy.Proxy.Server.Pipe.{Moves}
use rproxy.Proxy.Server.Open.{zero_copy-Returns}
use rproxy.Proxy.Server.Pairs.{KernelLaws, IsValid, erase-IsPaired}

-- The event closes the backend's socket `b`.
abbrev pub closes_socket : Resp → ℕ → Bool
closes_socket r b = meets r.events closable && same r.fd b

-- The events close `b`.
abbrev pub closed_by : List Resp → ℕ → Bool
closed_by [] b = false
closed_by (r ∷ rest) b = closes_socket r b || closed_by rest b

abbrev descriptors : List Resp → List ℕ
descriptors [] = []
descriptors (r ∷ rest) = r.fd ∷ descriptors rest

-- The events are of sockets of backends, each of another one.
abbrev pub AllKnown : List Resp → ProxyServer → Type 0
AllKnown [] p = Unit {0}
AllKnown (r ∷ rest) p =
    (has_key r.fd p.sock_map ≡ true) × (contains r.fd (descriptors rest) ≡ false) × AllKnown rest p

-- The call goes well; the state stays valid, and the backends that are `gone` are those missing.
abbrev pub Leaves :
    {S : Type 0} → (ℕ → S → Bool) → (ℕ → Bool) → ProxyServer → Result (ProxyServer × S) → Type 0
Leaves {S} is_open gone p r =
    (p' : ProxyServer) × (s' : S) × (r ≡ ok (p', s'))
    × IsValid is_open p' s'
    × ((b : ℕ) → find b p'.sock_map ≡ (if gone b then none else find b p.sock_map))

module _ {S : Type 0} (k : Kernel S) (is_open : ℕ → S → Bool) (laws : KernelLaws k is_open)
    (moves : Moves k) where
  answer_client-Leaves :
      (fd client : ℕ) (p : ProxyServer) (s : S)
      → IsValid is_open p s
      → (p' : ProxyServer) × (s' : S) × (answer_client k fd client p s ≡ ok (p', s'))
        × IsValid is_open p' s'
        × (p'.sock_map ≡ p.sock_map)
  unfolding answer_client
  answer_client-Leaves fd client p s v =
      let (total, sent, pipe', s', run, same_open) =
        zero_copy-Returns k is_open laws fd client p.pipe s moves in
      (
        record p { pipe = pipe' },
        s',
        rw run refl,
        record { paired = v.paired; opened = λ b c e. same_open b ∙ v.opened b c e; turn = v.turn },
        refl,
      )

  close_backend-Leaves :
      (fd client : ℕ) (p : ProxyServer) (s : S)
      → IsValid is_open p s
      → find fd p.sock_map ≡ some client
      → Leaves is_open (same fd) p (ok (close_backend k fd p s))
  unfolding close_backend
  close_backend-Leaves fd client p s v known = (
    record p {
      effects = p.effects ++ (closes fd ∷ []);
      reversed_map = erase client p.reversed_map;
      sock_map = erase fd p.sock_map;
    },
    k.close fd s,
    ground arith,
    record {
      paired = erase-IsPaired fd client p.sock_map p.reversed_map known v.paired;
      opened = λ b c e.
          ground (arith, find-erase fd b p.sock_map, v.opened b c, laws.close-keeps fd b s);
      turn = v.turn;
    },
    λ b. find-erase fd b p.sock_map,
  )

  -- The three ways through a round, by the events.
  pub wait_one-Leaves :
      (r : Resp) (client : ℕ) (p : ProxyServer) (s : S)
      → IsValid is_open p s
      → find r.fd p.sock_map ≡ some client
      → Leaves is_open (closes_socket r) p (wait_one k r p s)
  unfolding wait_one
  wait_one-Leaves r client p s v known = elim (Bool-cases (meets r.events closable)) [
    | inl closing ↦
        let (p', s', run, valid, left) = close_backend-Leaves r.fd client p s v known in
        (p', s', ground (arith, known, closing, run), valid, λ b. rw closing (left b))
    | inr staying ↦ elim (Bool-cases (meets r.events readable)) [
      | inl reading ↦
          let (p', s', run, valid, held) = answer_client-Leaves r.fd client p s v in
          (
            p',
            s',
            ground (arith, known, staying, reading, run),
            valid,
            λ b. rw staying (ap (find b) held),
          )
      | inr idle ↦ (p, s, ground (arith, known, staying, idle), v, λ b. rw staying refl)
    ]
  ]

  -- Events of other sockets stay known.
  known_after :
      (r : Resp) (rest : List Resp) (p p' : ProxyServer)
      → AllKnown rest p
      → contains r.fd (descriptors rest) ≡ false
      → ((b : ℕ) → find b p'.sock_map ≡ (if closes_socket r b then none else find b p.sock_map))
      → AllKnown rest p'
  unfolding has_key contains
  known_after r [] p p' known other left = tt
  known_after r (q ∷ rest) p p' known other left = (
    ground (arith, nat_eq.beq_iff r.fd q.fd, nat_eq.beq_iff q.fd r.fd, left q.fd, known.0),
    known.1,
    known_after r rest p p' known.2 (ground (arith, other)) left,
  )

  -- `updateForWait` of events of different backends, all of them known: it comes to its end without an
  -- exception, the two maps stay inverse to each other, and exactly the backends with an event that
  -- closes the socket have left.
  pub update_for_wait-Leaves :
      (resps : List Resp) (p : ProxyServer) (s : S)
      → IsValid is_open p s
      → AllKnown resps p
      → Leaves is_open (closed_by resps) p (update_for_wait k resps p s)
  unfolding update_for_wait has_key
  update_for_wait-Leaves [] p s v known = (p, s, refl, v, λ b. refl)
  update_for_wait-Leaves (r ∷ rest) p s v known = elim (Option-cases (find r.fd p.sock_map)) [
    | inl unknown ↦ absurd (ground (arith, known.0))
    | inr (client, found) ↦
        let (p₁, s₁, run, valid, left) = wait_one-Leaves r client p s v found in
        let (p₂, s₂, go, valid', left') =
          update_for_wait-Leaves rest p₁ s₁ valid (known_after r rest p p₁ known.2 known.1 left) in
        (p₂, s₂, rw (run, go) refl, valid', λ b. ground (arith, left b, left' b))
  ]

pub update-wait :
    {S : Type 0} (k : Kernel S) (resps : List Resp) (p : ProxyServer) (s : S)
    → update k (record { event_type = dmp_wait; body = wait_ctx resps }) p s
      ≡ update_for_wait k resps p s
unfolding update
update-wait k resps p s = refl
