-- ===== src/Proxy/Server/Twice.antt =====
-- A backend's socket is registered twice in src/proxy/proxy_server.cc: by `establishWith`, and by
-- `updateForForward` after it.
use rproxy.Base.{
  ℕ, suc, ◌%◌, ◌<◌, ◌≢◌, Failure, ltb→lt, not-ltb, Bool, true, false, ◌≡◌, refl, ap, sym, ◌∙◌, none,
  some, List, [], ◌∷◌, ◌++◌, ltb, length, get_elem?, if◌then◌else◌, arith, ok, err, out_of_range,
  Result-cases, Bool-cases, inl, inr,
}
use native.Mathlib.Nat.{mod-eq_of_lt}
use rproxy.Base.Eq.{nat_eq, same}
use rproxy.Base.Maps.{find, has_key, emplace, find-emplace, contains}
use rproxy.Network.Addr.{InetAddr, to_string}
use rproxy.Network.Demultiplex.{Demultiplex, closable, meets, tell, demultiplex_register}
use rproxy.Network.Group.Turns.{IsAt, register_fd-IsAt}
use rproxy.Network.Reactor.Heard.{watched_from, watched_from-append}
use rproxy.Pubsub.Center.{is_limited}
use rproxy.Pubsub.Event.{Resp}
use rproxy.Proxy.Server.{
  ProxyServer, Kernel, establish_with, remember, copy_and_account, pass_on, connected, forward_one,
  wait_one, update_for_wait,
}
use rproxy.Proxy.Server.Outcome.{Goes, Unreached, Goes-weaken}
use rproxy.Proxy.Server.Pipe.{Moves}
use rproxy.Proxy.Server.Open.{zero_copy-Returns}
use rproxy.Proxy.Server.Pairs.{KernelLaws, IsValid}
use rproxy.Proxy.Server.Wait.{update_for_wait-Leaves}

-- Neither the requests to the kernel nor the clients change.
abbrev pub Holds : {S : Type 0} → ProxyServer → ProxyServer → S → Type 0
Holds p p' s = (p'.effects ≡ p.effects) × (p'.reversed_map ≡ p.reversed_map)

-- The epoll instance of the demultiplexer watches the socket.
abbrev pub IsWatchedBy : ℕ → Demultiplex → ProxyServer → Type 0
IsWatchedBy sock d p = watched_from d.dmpfd sock false p.effects ≡ true

-- The epoll instances of the group are different.
abbrev pub AreApart : List Demultiplex → Type 0
AreApart dmpes =
    (i j : ℕ) (d e : Demultiplex)
    → get_elem? dmpes i ≡ some d
    → get_elem? dmpes j ≡ some e
    → d.dmpfd ≡ e.dmpfd
    → i ≡ j

-- The backend that a client has is watched by the demultiplexer at place `i` of the group and by the
-- next one, which has another epoll instance.
abbrev pub WatchedTwice : ℕ → ℕ → List Demultiplex → ProxyServer → Type 0
WatchedTwice incoming i dmpes p =
    (sock : ℕ) × (d₁ : Demultiplex) × (d₂ : Demultiplex) × (find incoming p.reversed_map
      ≡ some sock)
    × (get_elem? dmpes i ≡ some d₁)
    × (get_elem? dmpes (suc i % length dmpes) ≡ some d₂)
    × (d₁.dmpfd ≢ d₂.dmpfd)
    × IsWatchedBy sock d₁ p
    × IsWatchedBy sock d₂ p

next_place : (i n : ℕ) → i < n → 1 < n → i ≢ suc i % n
next_place i n inside two e = elim (Bool-cases (ltb (suc i) n)) [
  | inl more ↦ omega (arith, e, mod-eq_of_lt (ltb→lt _ _ more))
  | inr last ↦
      let at_end : suc i ≡ n = omega (arith, inside, not-ltb _ _ last) in
      let back : suc i % n ≡ 0 = rw at_end (grind arith) in omega (arith, e, back, at_end, two)
]

watched-register :
    (d e : Demultiplex) (fd : ℕ) (w : Bool)
    → watched_from e.dmpfd fd w (demultiplex_register fd false d)
      ≡ (if same d.dmpfd e.dmpfd then true else w)
unfolding watched_from demultiplex_register tell
watched-register d e fd w = elim (Bool-cases d.notify) [
  | inl told ↦ ground (arith, told, nat_eq.beq_iff fd fd)
  | inr untold ↦ ground (arith, untold, nat_eq.beq_iff fd fd)
]

module _ {S : Type 0} (k : Kernel S) (is_open : ℕ → S → Bool) (laws : KernelLaws k is_open)
    (moves : Moves k) where
  copy_and_account-Holds :
      (addr : List ℕ) (incoming sock : ℕ) (p : ProxyServer) (s : S)
      → Goes (λ e. ⊥) (Holds p) (copy_and_account k addr incoming sock p s)
  unfolding copy_and_account
  copy_and_account-Holds addr incoming sock p s =
      let (total, sent, pipe', s', run, same_open) =
        zero_copy-Returns k is_open laws incoming sock p.pipe s moves in
      rw run (refl, refl)

  pass_on-Holds :
      (incoming sock : ℕ) (p : ProxyServer) (s : S)
      → find incoming p.reversed_map ≡ some sock
      → Goes (λ e. ⊥) (Holds p) (pass_on k incoming p s)
  unfolding pass_on
  pass_on-Holds incoming sock p s known =
      elim (Bool-cases (is_limited (to_string (k.peer incoming s)) p.center)) [
        | inl limited ↦ rw (pass_on, known, limited) (refl, refl)
        | inr free ↦
            rw (pass_on, known, free)
              (copy_and_account-Holds (to_string (k.peer incoming s)) incoming sock p s)
      ]

  -- The second registration, with the demultiplexer at place `j`.
  connected-Twice :
      (F : Failure → Type 0) (incoming sock i j : ℕ) (d₁ : Demultiplex) (p : ProxyServer) (s : S)
      → IsAt j p.group
      → find incoming p.reversed_map ≡ none
      → get_elem? p.group.dmpes i ≡ some d₁
      → j ≡ suc i % length p.group.dmpes
      → i ≢ j
      → AreApart p.group.dmpes
      → IsWatchedBy sock d₁ p
      → Goes F (λ p' s'. WatchedTwice incoming i p.group.dmpes p') (connected k incoming sock p s)
  unfolding connected remember has_key
  connected-Twice F incoming sock i j d₁ p s at_j new first next other apart watched =
      let (d₂, rest, found, run, turn) = register_fd-IsAt sock j p.group at_j in
      let p' : ProxyServer = record p {
        sock_map = emplace sock incoming p.sock_map;
        reversed_map = emplace incoming sock p.reversed_map;
        group = record p.group { iter = rest };
        effects = p.effects ++ demultiplex_register sock false d₂;
      } in
      let known : find incoming p'.reversed_map ≡ some sock = ground (
        arith,
        nat_eq.beq_iff incoming incoming,
        find-emplace incoming incoming sock p.reversed_map,
        new,
      ) in
      rw (natural, run)
        (Goes-weaken (λ e. ⊥) F (Holds p') (λ q t. WatchedTwice incoming i p.group.dmpes q)
          (pass_on k incoming p' s) (λ e f. absurd f)
          (λ q t (held, kept). (
            sock,
            d₁,
            d₂,
            ap (find incoming) kept ∙ known,
            first,
            ap (get_elem? p.group.dmpes) (sym next) ∙ found,
            λ same_fd. other (apart i j d₁ d₂ first found same_fd),
            ap (watched_from d₁.dmpfd sock false) held ∙ both d₂ d₁ watched,
            ap (watched_from d₂.dmpfd sock false) held ∙ last d₂,
          ))
          (pass_on-Holds incoming sock p' s known))
    where
      natural : ltb sock 0 ≡ false
      natural = ground arith

      both :
          (d e : Demultiplex)
          → IsWatchedBy sock e p
          → watched_from e.dmpfd sock false (p.effects ++ demultiplex_register sock false d) ≡ true
      both d e w =
          watched_from-append e.dmpfd sock false p.effects (demultiplex_register sock false d)
          ∙ watched-register d e sock (watched_from e.dmpfd sock false p.effects)
          ∙ ground (arith, w)

      last :
          (d : Demultiplex)
          → watched_from d.dmpfd sock false (p.effects ++ demultiplex_register sock false d) ≡ true
      last d =
          watched_from-append d.dmpfd sock false p.effects (demultiplex_register sock false d)
          ∙ watched-register d d sock (watched_from d.dmpfd sock false p.effects)
          ∙ ground (arith, nat_eq.beq_iff d.dmpfd d.dmpfd)

  -- A client without a backend, where the group has two demultiplexers or more, whose epoll instances
  -- are different, and its iterator stands before the one at place `i`: unless the kernel refuses the
  -- connection to the client's backend, the client has a backend after the round, and two different
  -- epoll instances watch its socket, that of the demultiplexer at place `i` and that of the next.
  pub forward_one-Twice :
      (incoming i : ℕ) (addr : InetAddr) (p : ProxyServer) (s : S)
      → IsAt i p.group
      → find incoming p.reversed_map ≡ none
      → 1 < length p.group.dmpes
      → AreApart p.group.dmpes
      → Goes
          (Unreached k addr)
          (λ p' s'. WatchedTwice incoming i p.group.dmpes p')
          (forward_one k incoming addr p s)
  unfolding forward_one establish_with has_key
  forward_one-Twice incoming i addr p s at_i new two apart =
      rw new (elim (Result-cases (k.connect addr s)) [
        | inl (e, failed) ↦ rw failed (laws.connect-fails addr s e failed, (s, failed))
        | inr ((sock, s'), made) ↦
            let (d, rest, found, run, turn) = register_fd-IsAt sock i p.group at_i in
            let p' : ProxyServer = record p {
              group = record p.group { iter = rest };
              effects = p.effects ++ demultiplex_register sock false d;
            } in
            rw (made, run)
              (connected-Twice (Unreached k addr) incoming sock i (suc i % length p.group.dmpes) d
                p' s' turn new found refl (next_place i (length p.group.dmpes) at_i.inside two)
                apart (watched-append d sock))
      ])
    where
      watched-append :
          (d : Demultiplex) (sock : ℕ)
          → watched_from d.dmpfd sock false (p.effects ++ demultiplex_register sock false d) ≡ true
      watched-append d sock =
          watched_from-append d.dmpfd sock false p.effects (demultiplex_register sock false d)
          ∙ watched-register d d sock (watched_from d.dmpfd sock false p.effects)
          ∙ ground (arith, nat_eq.beq_iff d.dmpfd d.dmpfd)

  pub wait_one-unknown :
      (r : Resp) (p : ProxyServer) (s : S)
      → find r.fd p.sock_map ≡ none
      → wait_one k r p s ≡ err out_of_range
  unfolding wait_one
  wait_one-unknown r p s gone = ground (arith, gone)

  -- The event that a known backend closes its socket, which two threads are told of, where the maps
  -- are inverse to each other and the backends open: the thread that handles it first succeeds, and
  -- `updateForWait` of the other throws `out_of_range`.
  pub update_for_wait-Throws :
      (r : Resp) (p : ProxyServer) (s : S)
      → IsValid is_open p s
      → has_key r.fd p.sock_map ≡ true
      → meets r.events closable ≡ true
      → (p' : ProxyServer) × (s' : S) × (update_for_wait k (r ∷ []) p s ≡ ok (p', s'))
        × (update_for_wait k (r ∷ []) p' s' ≡ err out_of_range)
  unfolding update_for_wait contains
  update_for_wait-Throws r p s v known closing =
      let (p', s', run, valid, left) =
        update_for_wait-Leaves k is_open laws moves (r ∷ []) p s v (known, refl, tt) in
      (
        p',
        s',
        run,
        rw
            (wait_one-unknown r p' s'
              (left r.fd ∙ ground (arith, closing, nat_eq.beq_iff r.fd r.fd)))
            refl,
      )
