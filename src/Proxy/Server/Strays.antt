-- ===== src/Proxy/Server/Strays.antt =====
-- `updateForWait` of src/proxy/proxy_server.cc on any events, those of descriptors that are no
-- backend's among them.
use rproxy.Base.{ℕ, Bool, ◌≡◌, refl, List, [], ◌∷◌, out_of_range, Option-cases, inl, inr}
use rproxy.Base.Eq.{nat_eq}
use rproxy.Base.Maps.{find}
use rproxy.Pubsub.Event.{Resp}
use rproxy.Proxy.Server.{ProxyServer, Kernel, update_for_wait}
use rproxy.Proxy.Server.Outcome.{Goes}
use rproxy.Proxy.Server.Pipe.{Moves}
use rproxy.Proxy.Server.Pairs.{KernelLaws, IsValid}
use rproxy.Proxy.Server.Twice.{wait_one-unknown}
use rproxy.Proxy.Server.Wait.{wait_one-Leaves}

module _ {S : Type 0} (k : Kernel S) (is_open : ℕ → S → Bool) (laws : KernelLaws k is_open)
    (moves : Moves k) where
  -- Where it comes to its end the state is valid, and otherwise a lookup failed.
  pub update_for_wait-Goes :
      (resps : List Resp) (p : ProxyServer) (s : S)
      → IsValid is_open p s
      → Goes (λ e. e ≡ out_of_range) (IsValid is_open) (update_for_wait k resps p s)
  unfolding update_for_wait
  update_for_wait-Goes [] p s v = v
  update_for_wait-Goes (r ∷ rest) p s v = elim (Option-cases (find r.fd p.sock_map)) [
    | inl unknown ↦ rw (wait_one-unknown k is_open laws moves r p s unknown) refl
    | inr (client, found) ↦
        let (p₁, s₁, run, valid, left) =
          wait_one-Leaves k is_open laws moves r client p s v found in
        rw run (update_for_wait-Goes rest p₁ s₁ valid)
  ]
