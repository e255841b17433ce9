-- ===== src/Proxy/Loader/Probe.antt =====
-- `checkAllBackend` of src/proxy/loader.cc, as a reference that has no branch that removes a backend.
use rproxy.Base.{
  ℕ, zero, suc, ◌<◌, ltb, Bool, true, ◌≡◌, refl, ap, ◌∙◌, Option, List, [], ◌∷◌, arith, ℤ, pos,
  is_negative, if◌then◌else◌, Result-cases, Option-cases, Result, ok, err, ◌>>=◌, OnOk, bind_ok,
  sym, Bool-cases, inl, inr,
}
use mathlib.Core.Path.{subst}
use rproxy.Base.Eq.{nat_eq, text_eq}
use rproxy.Base.Maps.{find}
use rproxy.Network.Addr.{InetAddr}
use rproxy.Proxy.Loader.{
  LoadBalancer, Backends, at_key, sent_all, connect_loop, write_loop, receive_loop, drop_backend,
  check_answer, check_text, check_backend, check_each,
}

module _ {S : Type 0} (connect : InetAddr → S → Result (ℕ × S))
    (write : ℤ → List ℕ → S → Option ℕ × S) (receive : ℤ → List ℕ → S → Bool × S) where
  -- At most so many attempts, up to the first that succeeds: what the network is left as.
  abbrev pub tried : ℕ → (S → Bool × S) → S → S
  tried zero attempt s = s
  tried (suc n) attempt s =
      let later = tried n attempt (attempt s).1 in if (attempt s).0 then (attempt s).1 else later

  -- An attempt to connect, and at most `n` more until one gives a descriptor above 0.
  abbrev pub reached : ℕ → InetAddr → S → Result (ℕ × S)
  reached zero addr s = connect addr s
  reached (suc n) addr s = connect addr s >>= λ record { 0 = fd; 1 = s' }.
      let later = reached n addr s' in if ltb 0 fd then ok (fd, s') else later

  abbrev pub sends : ℕ → List ℕ → S → Bool × S
  sends fd text s = (sent_all text (write (pos fd) text s).0, (write (pos fd) text s).1)

  -- The backends on the list of those to check, in order: each is connected to in three attempts at
  -- most, sent the text in three at most, and waited for in three at most.
  abbrev pub probe : Backends → List ℕ → List (List ℕ × ℕ) → S → Result S
  probe backend text [] s = ok s
  probe backend text ((key, port) ∷ rest) s = at_key (find key backend) >>= λ known.
      reached 2 (record { ip = known.ip; port = port }) s >>= λ record { 0 = fd; 1 = s' }.
      probe backend text rest (tried 3 (receive (pos fd) text) (tried 3 (sends fd text) s'))

  connect_loop-reached :
      (fuel n : ℕ) (addr : InetAddr) (s : S)
      → n < fuel
      → connect_loop connect write receive fuel (pos (suc n)) addr s
        ≡ (reached n addr s >>= λ p. ok (pos p.0, p.1))
  unfolding connect_loop
  connect_loop-reached zero n addr s h = absurd (omega arith)
  connect_loop-reached (suc fuel) zero addr s h = elim (Result-cases (connect addr s)) [
    | inl (e, failed) ↦ rw failed refl
    | inr ((zero, s'), made) ↦ rw made refl
    | inr ((suc fd, s'), made) ↦ rw made refl
  ]
  connect_loop-reached (suc fuel) (suc n) addr s h = elim (Result-cases (connect addr s)) [
    | inl (e, failed) ↦ rw failed refl
    | inr ((zero, s'), made) ↦ rw made (connect_loop-reached fuel n addr s' (omega (arith, h)))
    | inr ((suc fd, s'), made) ↦ rw (made, positive fd) refl
  ]
    where
      positive : (fd : ℕ) → ltb 0 (suc fd) ≡ true
      positive fd = ground arith

  -- A loop of attempts ends with `time` at 0 or above it.
  abbrev EndsAbove : S → Result (ℤ × S) → Type 0
  EndsAbove s' r = (time : ℕ) × (r ≡ ok (pos time, s'))

  write_loop-tried :
      (fuel n fd : ℕ) (text : List ℕ) (s : S)
      → n < fuel
      → EndsAbove
          (tried (suc n) (sends fd text) s)
          (write_loop connect write receive fuel (pos (suc n)) (pos fd) text s)
  unfolding write_loop
  write_loop-tried zero n fd text s h = absurd (omega arith)
  write_loop-tried (suc fuel) zero fd text s h =
      elim (Bool-cases (sent_all text (write (pos fd) text s).0)) [
        | inl done ↦ rw done (1, refl)
        | inr again ↦ rw again (0, refl)
      ]
  write_loop-tried (suc fuel) (suc n) fd text s h =
      elim (Bool-cases (sent_all text (write (pos fd) text s).0)) [
        | inl done ↦ rw done (suc (suc n), refl)
        | inr again ↦
            rw again (write_loop-tried fuel n fd text (write (pos fd) text s).1 (omega (arith, h)))
      ]

  receive_loop-tried :
      (fuel n fd : ℕ) (text : List ℕ) (s : S)
      → n < fuel
      → EndsAbove
          (tried (suc n) (receive (pos fd) text) s)
          (receive_loop connect write receive fuel (pos (suc n)) (pos fd) text s)
  unfolding receive_loop
  receive_loop-tried zero n fd text s h = absurd (omega arith)
  receive_loop-tried (suc fuel) zero fd text s h = elim (Bool-cases (receive (pos fd) text s).0) [
    | inl done ↦ rw done (1, refl)
    | inr again ↦ rw again (0, refl)
  ]
  receive_loop-tried (suc fuel) (suc n) fd text s h =
      elim (Bool-cases (receive (pos fd) text s).0) [
        | inl done ↦ rw done (suc (suc n), refl)
        | inr again ↦
            rw again
              (receive_loop-tried fuel n fd text (receive (pos fd) text s).1 (omega (arith, h)))
      ]

  check_text-tried :
      (key : List ℕ) (fd : ℕ) (lb : LoadBalancer) (s : S)
      → check_text connect write receive key (pos fd) lb s
        ≡ ok (lb, tried 3 (receive (pos fd) lb.text) (tried 3 (sends fd lb.text) s))
  unfolding check_text check_answer
  check_text-tried key fd lb s =
      let (time₁, sent) = write_loop-tried 3 2 fd lb.text s (omega arith) in
      let (time₂, answered) =
        receive_loop-tried 3 2 fd lb.text (tried 3 (sends fd lb.text) s) (omega arith) in
      ap
        (λ r. r >>= λ p.
          if is_negative p.0
          then ok (drop_backend connect write receive key lb, p.1)
          else check_answer connect write receive key (pos fd) lb p.1)
        sent
      ∙ ap
          (λ r. r >>= λ p.
            ok (if is_negative p.0 then drop_backend connect write receive key lb else lb, p.1))
          answered

  -- The balancer, and what the network is left as.
  abbrev pub beside : LoadBalancer → Result S → Result (LoadBalancer × S)
  beside lb (ok s') = ok (lb, s')
  beside lb (err e) = err e

  -- One round, and then what `next` leaves the network as.
  abbrev probe_one : LoadBalancer → List ℕ → ℕ → (S → Result S) → S → Result S
  probe_one lb key port next s = at_key (find key lb.backend) >>= λ known.
      reached 2 (record { ip = known.ip; port = port }) s >>= λ record { 0 = fd; 1 = s' }.
      next (tried 3 (receive (pos fd) lb.text) (tried 3 (sends fd lb.text) s'))

  check_backend-probe :
      (key : List ℕ) (port : ℕ) (lb : LoadBalancer) (s : S)
      (next : LoadBalancer → S → Result (LoadBalancer × S)) (bare : S → Result S)
      → ((s' : S) → next lb s' ≡ beside lb (bare s'))
      → (check_backend connect write receive key port lb s >>= λ record { 0 = lb'; 1 = s' }.
          next lb' s')
        ≡ beside lb (probe_one lb key port bare s)
  unfolding check_backend
  check_backend-probe key port lb s next bare h = elim (Option-cases (find key lb.backend)) [
    | inl missing ↦ rw missing refl
    | inr (known, found) ↦
        elim (Result-cases (reached 2 (record { ip = known.ip; port = port }) s)) [
          | inl (e, failed) ↦
              rw
                (
                  found,
                  connect_loop-reached 3 2 (record { ip = known.ip; port = port }) s (omega arith),
                  failed,
                )
                refl
          | inr ((fd, s'), made) ↦
              rw
                (
                  found,
                  connect_loop-reached 3 2 (record { ip = known.ip; port = port }) s (omega arith),
                  made,
                  check_text-tried key fd lb s',
                )
                (h (tried 3 (receive (pos fd) lb.text) (tried 3 (sends fd lb.text) s')))
        ]
  ]

  pub check_each-probe :
      (entries : List (List ℕ × ℕ)) (lb : LoadBalancer) (s : S)
      → check_each connect write receive entries lb s
        ≡ beside lb (probe lb.backend lb.text entries s)
  unfolding check_each
  check_each-probe [] lb s = refl
  check_each-probe ((key, port) ∷ rest) lb s =
      check_backend-probe key port lb s (check_each connect write receive rest)
        (probe lb.backend lb.text rest) (λ s'. check_each-probe rest lb s')

  beside-Same : (lb : LoadBalancer) (r : Result S) → OnOk (λ p. p.0 ≡ lb) (beside lb r)
  beside-Same lb (ok s') = refl
  beside-Same lb (err e) = tt

  pub check_backend-keeps :
      (key : List ℕ) (port : ℕ) (lb : LoadBalancer) (s : S)
      → OnOk (λ p. p.0 ≡ lb) (check_backend connect write receive key port lb s)
  check_backend-keeps key port lb s =
      subst (OnOk (λ p. p.0 ≡ lb))
        (sym (check_backend-probe key port lb s (λ lb' s'. ok (lb', s')) (λ s'. ok s') (λ s'. refl))
          ∙ bind_ok (check_backend connect write receive key port lb s))
        (beside-Same lb (probe_one lb key port (λ s'. ok s') s))
