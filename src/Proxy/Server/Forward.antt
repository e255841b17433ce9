-- ===== src/Proxy/Server/Forward.antt =====
-- `updateForForward` of src/proxy/proxy_server.cc: each client of a batch gets a backend, and keeps
-- it.
use rproxy.Base.{
  ℕ, Bool, true, false, ◌≡◌, refl, ap, ◌∙◌, none, some, List, [], ◌∷◌, ◌++◌, ltb, arith, Result, ok,
  Result-cases, Bool-cases, Option-cases, inl, inr,
}
use rproxy.Base.Eq.{nat_eq}
use rproxy.Base.Maps.{find, has_key, is_some, emplace, find-emplace}
use rproxy.Network.Demultiplex.{demultiplex_register}
use rproxy.Network.Addr.{InetAddr, to_string}
use rproxy.Network.Group.Turns.{register_fd-IsAt}
use rproxy.Pubsub.Center.{is_limited}
use rproxy.Pubsub.Event.{forward, forward_ctx}
use rproxy.Proxy.Server.{
  ProxyServer, Kernel, establish_with, remember, copy_and_account, pass_on, connected, forward_one,
  update_for_forward, update,
}
use rproxy.Proxy.Server.Outcome.{Goes, Unreached, SomeUnreached, Goes-bind, Goes-weaken}
use rproxy.Proxy.Server.Pipe.{Moves}
use rproxy.Proxy.Server.Open.{zero_copy-Returns}
use rproxy.Proxy.Server.Pairs.{KernelLaws, IsValid, emplace-IsPaired}

-- What a client's backend is, before and after: those that have one keep it.
abbrev pub Keeps : ProxyServer → ProxyServer → Type 0
Keeps p p' = (c b : ℕ) → find c p.reversed_map ≡ some b → find c p'.reversed_map ≡ some b

-- Every client of the list has a backend.
abbrev pub AllServed : List (ℕ × InetAddr) → ProxyServer → Type 0
AllServed [] p = Unit {0}
AllServed ((incoming, addr) ∷ rest) p = (has_key incoming p.reversed_map ≡ true) × AllServed rest p

-- The state stays valid, clients keep their backends, and `incoming` has one.
abbrev pub Serves : {S : Type 0} → (ℕ → S → Bool) → ℕ → ProxyServer → ProxyServer → S → Type 0
Serves is_open incoming p p' s' =
    IsValid is_open p' s' × Keeps p p' × (has_key incoming p'.reversed_map ≡ true)

module _ {S : Type 0} (k : Kernel S) (is_open : ℕ → S → Bool) (laws : KernelLaws k is_open)
    (moves : Moves k) where
  copy_and_account-Goes :
      (addr : List ℕ) (incoming sock : ℕ) (p : ProxyServer) (s : S)
      → IsValid is_open p s
      → Goes
          (λ e. ⊥)
          (λ p' s'. IsValid is_open p' s' × (p'.reversed_map ≡ p.reversed_map))
          (copy_and_account k addr incoming sock p s)
  unfolding copy_and_account
  copy_and_account-Goes addr incoming sock p s v =
      let (total, sent, pipe', s', run, same_open) =
        zero_copy-Returns k is_open laws incoming sock p.pipe s moves in
      rw run (
        record { paired = v.paired; opened = λ b c e. same_open b ∙ v.opened b c e; turn = v.turn },
        refl,
      )

  pass_on-Goes :
      (incoming sock : ℕ) (p : ProxyServer) (s : S)
      → IsValid is_open p s
      → find incoming p.reversed_map ≡ some sock
      → Goes
          (λ e. ⊥)
          (λ p' s'. IsValid is_open p' s' × (p'.reversed_map ≡ p.reversed_map))
          (pass_on k incoming p s)
  unfolding pass_on
  pass_on-Goes incoming sock p s v known =
      elim (Bool-cases (is_limited (to_string (k.peer incoming s)) p.center)) [
        | inl limited ↦ rw (pass_on, known, limited) (v, refl)
        | inr free ↦
            rw (pass_on, known, free)
              (copy_and_account-Goes (to_string (k.peer incoming s)) incoming sock p s v)
      ]

  pass_on-Serves :
      (incoming sock : ℕ) (before p : ProxyServer) (s : S)
      → IsValid is_open p s
      → Keeps before p
      → find incoming p.reversed_map ≡ some sock
      → Goes (λ e. ⊥) (Serves is_open incoming before) (pass_on k incoming p s)
  unfolding has_key
  pass_on-Serves incoming sock before p s v keeps known =
      Goes-weaken (λ e. ⊥) (λ e. ⊥) _ (Serves is_open incoming before) (pass_on k incoming p s)
        (λ e f. f)
        (λ p' s' h. (
          h.0,
          λ c b e. ap (find c) h.1 ∙ keeps c b e,
          ap (λ m. is_some (find incoming m)) h.1 ∙ ap is_some known,
        ))
        (pass_on-Goes incoming sock p s v known)

  -- A client that has a backend by now, `sock`.
  abbrev Assigned : ℕ → ℕ → ProxyServer → S → Result ProxyServer → Type 0
  Assigned incoming sock p s r =
      (p' : ProxyServer) × (r ≡ ok p')
      × IsValid is_open p' s
      × Keeps p p'
      × (find incoming p'.reversed_map ≡ some sock)

  remember-Assigned :
      (incoming sock : ℕ) (p : ProxyServer) (s : S)
      → IsValid is_open p s
      → find sock p.sock_map ≡ none
      → find incoming p.reversed_map ≡ none
      → is_open sock s ≡ true
      → Assigned incoming sock p s (remember incoming sock p)
  unfolding remember has_key
  remember-Assigned incoming sock p s v new_sock new_client on =
      let (d, rest, found, run, turn) = register_fd-IsAt sock v.turn.0 p.group v.turn.1 in
      (
        record p {
          sock_map = emplace sock incoming p.sock_map;
          reversed_map = emplace incoming sock p.reversed_map;
          group = record p.group { iter = rest };
          effects = p.effects ++ demultiplex_register sock false d;
        },
        rw run refl,
        record {
          paired =
              emplace-IsPaired sock incoming p.sock_map p.reversed_map new_sock new_client v.paired;
          opened = λ b c e.
              ground (
                arith,
                nat_eq.beq_iff sock b,
                find-emplace sock b incoming p.sock_map,
                v.opened b c,
              );
          turn = (_, turn);
        },
        λ c b e.
            ground (arith, nat_eq.beq_iff incoming c, find-emplace incoming c sock p.reversed_map),
        ground (
          arith,
          nat_eq.beq_iff incoming incoming,
          find-emplace incoming incoming sock p.reversed_map,
        ),
      )

  connected-Serves :
      (incoming sock : ℕ) (before p : ProxyServer) (s : S)
      → IsValid is_open p s
      → Keeps before p
      → find sock p.sock_map ≡ none
      → find incoming p.reversed_map ≡ none
      → is_open sock s ≡ true
      → Goes (λ e. ⊥) (Serves is_open incoming before) (connected k incoming sock p s)
  unfolding connected
  connected-Serves incoming sock before p s v keeps new_sock new_client on =
      let (p', run, valid, kept, known) =
        remember-Assigned incoming sock p s v new_sock new_client on in
      rw (natural, run)
        (pass_on-Serves incoming sock before p' s valid (λ c b e. kept c b (keeps c b e)) known)
    where
      natural : ltb sock 0 ≡ false
      natural = ground arith

  surely :
      (addr : InetAddr) (incoming : ℕ) (p : ProxyServer) (r : Result (ProxyServer × S))
      → Goes (λ e. ⊥) (Serves is_open incoming p) r
      → Goes (Unreached k addr) (Serves is_open incoming p) r
  surely addr incoming p r g =
      Goes-weaken (λ e. ⊥) (Unreached k addr) (Serves is_open incoming p)
        (Serves is_open incoming p) r (λ e f. absurd f) (λ p s h. h) g

  forward_one-Serves :
      (incoming : ℕ) (addr : InetAddr) (p : ProxyServer) (s : S)
      → IsValid is_open p s
      → Goes (Unreached k addr) (Serves is_open incoming p) (forward_one k incoming addr p s)
  unfolding forward_one establish_with has_key
  forward_one-Serves incoming addr p s v = elim (Option-cases (find incoming p.reversed_map)) [
    | inr (sock, known) ↦ rw known (
        surely addr incoming p (pass_on k incoming p s)
          (pass_on-Serves incoming sock p p s v (λ c b e. e) known))
    | inl unknown ↦ rw unknown (elim (Result-cases (k.connect addr s)) [
      | inl (e, failed) ↦ rw failed (laws.connect-fails addr s e failed, (s, failed))
      | inr ((sock, s'), made) ↦
          let (d, rest, found, run, turn) = register_fd-IsAt sock v.turn.0 p.group v.turn.1 in
          rw (made, run)
            (surely addr incoming p _ (
              connected-Serves incoming sock p
                (record p {
                  group = record p.group { iter = rest };
                  effects = p.effects ++ demultiplex_register sock false d;
                })
                s'
                (record {
                  paired = v.paired;
                  opened = λ b c e. laws.connect-keeps addr s s' sock b made (v.opened b c e);
                  turn = (_, turn);
                })
                (λ c b e. e) (fresh sock s' made) unknown (laws.connect-new addr s s' sock made).1))
    ])
  ]
    where
      fresh : (sock : ℕ) (s' : S) → k.connect addr s ≡ ok (sock, s') → find sock p.sock_map ≡ none
      fresh sock s' made = elim (Option-cases (find sock p.sock_map)) [
        | inl new ↦ new
        | inr (c, old) ↦ ground (arith, v.opened sock c old, laws.connect-new addr s s' sock made)
      ]

  -- `updateForForward` of a batch, where the maps are inverse to each other and the backends open: it
  -- fails only with a runtime_error by which the kernel refused a connection to one of the addresses of
  -- the batch. Otherwise every client of the batch has a backend afterwards, clients that
  -- had one before have the same, and the two maps are inverse to each other.
  pub update_for_forward-Serves :
      (batch : List (ℕ × InetAddr)) (p : ProxyServer) (s : S)
      → IsValid is_open p s
      → Goes
          (SomeUnreached k batch)
          (λ p' s'. IsValid is_open p' s' × Keeps p p' × AllServed batch p')
          (update_for_forward k batch p s)
  unfolding update_for_forward has_key
  update_for_forward-Serves [] p s v = (v, λ c b e. e, tt)
  update_for_forward-Serves ((incoming, addr) ∷ rest) p s v =
      Goes-bind (Unreached k addr) (SomeUnreached k ((incoming, addr) ∷ rest))
        (Serves is_open incoming p) _ (forward_one k incoming addr p s) (update_for_forward k rest)
        (forward_one-Serves incoming addr p s v) (λ e f. inl f)
        (λ p₁ s₁ h.
          Goes-weaken (SomeUnreached k rest) _ _ _ (update_for_forward k rest p₁ s₁) (λ e f. inr f)
            (λ p₂ s₂ g. (g.0, λ c b e. g.1 c b (h.1 c b e), (stays incoming p₁ p₂ g.1 h.2, g.2)))
            (update_for_forward-Serves rest p₁ s₁ h.0))
    where
      stays :
          (c : ℕ) (q q' : ProxyServer)
          → Keeps q q'
          → has_key c q.reversed_map ≡ true
          → has_key c q'.reversed_map ≡ true
      stays c q q' kept known = elim (Option-cases (find c q.reversed_map)) [
        | inl unknown ↦ ground arith
        | inr (b, e) ↦ ap is_some (kept c b e)
      ]

-- The event of the balancer.
pub update-forward :
    {S : Type 0} (k : Kernel S) (batch : List (ℕ × InetAddr)) (p : ProxyServer) (s : S)
    → update k (record { event_type = forward; body = forward_ctx batch }) p s
      ≡ update_for_forward k batch p s
unfolding update
update-forward k batch p s = refl
