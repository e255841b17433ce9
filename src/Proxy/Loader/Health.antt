-- ===== src/Proxy/Loader/Health.antt =====
-- `checkAllBackend` of src/proxy/loader.cc: what the health check does to the list of backends.
use rproxy.Base.{
  ℕ, Bool, true, ◌≡◌, ◌≢◌, refl, ap, sym, ◌∙◌, Option, none, List, [], ◌∷◌, arith, Result, OnOk, ok,
  err, Failure, ◌>>=◌, out_of_range, Bool-cases, inl, inr, ℤ,
}
use rproxy.Base.Eq.{nat_eq, text_eq, same, same_refl, list_beq_iff}
use rproxy.Base.Maps.{find, has_key, is_some, emplace, erase, find-emplace, find-erase}
use rproxy.Network.Addr.{InetAddr, to_string}
use rproxy.Proxy.Loader.{
  LoadBalancer, check_backend, check_each, check_all_backend, add_backend, remove_backend,
}
use rproxy.Proxy.Loader.Probe.{beside, probe, check_backend-keeps, check_each-probe}

module _ {S : Type 0} (connect : InetAddr → S → Result (ℕ × S))
    (write : ℤ → List ℕ → S → Option ℕ × S) (receive : ℤ → List ℕ → S → Bool × S) where
  -- Whatever the network answers, a health check does what it does to the network and fails where it
  -- fails as the bare attempts do: for each backend on the list of those to check, at most three to
  -- connect, at most three to send the text and at most three to be answered, each kind up to the first
  -- that succeeds. The balancer is as it was: no backend is removed, however dead.
  pub check_all_backend-keeps :
      (lb : LoadBalancer) (s : S)
      → check_all_backend connect write receive lb s
        ≡ beside connect write receive lb
            (probe connect write receive lb.backend lb.text lb.checked s)
  unfolding check_all_backend
  check_all_backend-keeps lb s = check_each-probe connect write receive lb.checked lb s

  -- What follows a check that changed nothing cannot save one that must fail.
  bind_fails :
      (lb : LoadBalancer) (r : Result (LoadBalancer × S))
      (f : LoadBalancer × S → Result (LoadBalancer × S)) (q : LoadBalancer × S)
      → OnOk (λ p. p.0 ≡ lb) r
      → ((s : S) → f (lb, s) ≢ ok q)
      → (r >>= f) ≢ ok q
  bind_fails lb (ok (lb', s)) f q e h run = h s (ap (λ x. f (x, s)) (sym e) ∙ run)
  bind_fails lb (err e) f q k h run = cc

  bind_err :
      (r : Result (LoadBalancer × S)) (f : LoadBalancer × S → Result (LoadBalancer × S))
      (q : LoadBalancer × S) (e : Failure)
      → r ≡ err e
      → (r >>= f) ≢ ok q
  bind_err r f q e h run = failed (sym (ap (λ x. x >>= f) h) ∙ run)
    where
      failed : err e ≡ ok q → ⊥
      failed i = cc

  check_each-missing :
      (key : List ℕ) (entries : List (List ℕ × ℕ)) (lb : LoadBalancer) (s : S)
      (q : LoadBalancer × S)
      → has_key key entries ≡ true
      → find key lb.backend ≡ none
      → check_each connect write receive entries lb s ≢ ok q
  unfolding check_each check_backend has_key find
  check_each-missing key [] lb s q h m = cc
  check_each-missing key ((k, port) ∷ rest) lb s q h m = elim (Bool-cases (same k key)) [
    | inl hit ↦
        bind_err (check_backend connect write receive k port lb s) _ q out_of_range
          (rw ((list_beq_iff k key).0 hit, check_backend, m) refl)
    | inr miss ↦
        bind_fails lb (check_backend connect write receive k port lb s) _ q
          (check_backend-keeps connect write receive k port lb s)
          λ s'. check_each-missing key rest lb s' q (ground arith) m
  ]

  -- A backend that was added and then removed is still on the list of those to check: from then on no
  -- health check returns, whatever the network answers.
  pub check_after_removal :
      (addr : InetAddr) (check_port : ℕ) (lb : LoadBalancer) (s : S) (q : LoadBalancer × S)
      → check_all_backend connect write receive
          (remove_backend addr (add_backend addr check_port lb))
          s
        ≢ ok q
  unfolding check_all_backend remove_backend add_backend has_key
  check_after_removal addr check_port lb s q =
      let key = to_string addr in
      let known : is_some (find key (emplace key addr lb.backend)) ≡ true =
        ground (arith, find-emplace key key addr lb.backend, same_refl key) in
      rw known (
        check_each-missing key (emplace key check_port lb.checked)
          (record lb {
            backend = erase key (emplace key addr lb.backend);
            checked = emplace key check_port lb.checked;
          })
          s q (ground (arith, find-emplace key key check_port lb.checked, same_refl key))
          (ground (arith, find-erase key key (emplace key addr lb.backend), same_refl key)))
