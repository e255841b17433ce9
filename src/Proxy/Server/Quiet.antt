-- ===== src/Proxy/Server/Quiet.antt =====
-- `updateForWait` of src/proxy/proxy_server.cc asks nothing of the center.
use rproxy.Base.{
  ℕ, Bool, not, ◌&&◌, ◌≡◌, refl, List, [], ◌∷◌, if◌then◌else◌, Result, ok, OnOk, OnOk-bind,
  OnOk-any, Bool-cases, Option-cases, inl, inr,
}
use mathlib.Core.Path.{subst}
use rproxy.Base.Eq.{nat_eq}
use rproxy.Base.Maps.{find}
use rproxy.Network.Demultiplex.{readable, closable, meets}
use rproxy.Pubsub.Event.{Resp}
use rproxy.Proxy.Server.{
  ProxyServer, Kernel, at_key, zero_copy, answer_client, close_backend, wait_one, update_for_wait,
}

-- The center of the server that a call leaves.
abbrev pub HasCenter : {S : Type 0} → ProxyServer → (ProxyServer × S) → Type 0
HasCenter p c = c.0.center ≡ p.center

module _ {S : Type 0} (k : Kernel S) where
  answer_client-HasCenter :
      (fd client : ℕ) (p : ProxyServer) (s : S) → OnOk (HasCenter p) (answer_client k fd client p s)
  unfolding answer_client
  answer_client-HasCenter fd client p s =
      OnOk-bind (λ _. Unit {0}) (HasCenter p) (zero_copy k fd client p.pipe s) _
        (OnOk-any (zero_copy k fd client p.pipe s)) (λ c h. refl)

  closed-HasCenter :
      (fd : ℕ) (before p : ProxyServer) (s : S)
      → p.center ≡ before.center
      → HasCenter before (close_backend k fd p s)
  unfolding close_backend
  closed-HasCenter fd before p s h = elim (Option-cases (find fd p.sock_map)) [
    | inl unknown ↦ rw (close_backend, unknown) h
    | inr (client, known) ↦ rw (close_backend, known) h
  ]

  wait_one-HasCenter : (r : Resp) (p : ProxyServer) (s : S) → OnOk (HasCenter p) (wait_one k r p s)
  unfolding wait_one
  wait_one-HasCenter r p s =
      OnOk-bind (λ _. Unit {0}) (HasCenter p) (at_key (find r.fd p.sock_map)) _
        (OnOk-any (at_key (find r.fd p.sock_map)))
        (λ client known.
          OnOk-bind (HasCenter p) (HasCenter p) (answered client) _ (answered-HasCenter client)
            (λ c h. closes_or_not c h))
    where
      goes_on : Bool
      goes_on = meets r.events readable && not (meets r.events closable)

      answered : ℕ → Result (ProxyServer × S)
      answered client = if goes_on then answer_client k r.fd client p s else ok (p, s)

      answered-HasCenter : (client : ℕ) → OnOk (HasCenter p) (answered client)
      answered-HasCenter client = elim (Bool-cases goes_on) [
        | inl reads ↦ rw reads (answer_client-HasCenter r.fd client p s)
        | inr rests ↦ rw rests refl
      ]

      closes_or_not :
          (c : ProxyServer × S)
          → HasCenter p c
          → HasCenter p
              (if meets r.events closable then close_backend k r.fd c.0 c.1 else (c.0, c.1))
      closes_or_not c h = elim (Bool-cases (meets r.events closable)) [
        | inl closing ↦ rw closing (closed-HasCenter r.fd p c.0 c.1 h)
        | inr open' ↦ rw open' h
      ]

  held :
      (rest : List Resp) (before p : ProxyServer) (s : S)
      → p.center ≡ before.center
      → OnOk (HasCenter p) (update_for_wait k rest p s)
      → OnOk (HasCenter before) (update_for_wait k rest p s)
  held rest before p s e h =
      subst (λ c. OnOk (λ x. x.0.center ≡ c) (update_for_wait k rest p s)) e h

  pub update_for_wait-HasCenter :
      (resps : List Resp) (p : ProxyServer) (s : S)
      → OnOk (HasCenter p) (update_for_wait k resps p s)
  unfolding update_for_wait
  update_for_wait-HasCenter [] p s = refl
  update_for_wait-HasCenter (r ∷ rest) p s =
      OnOk-bind (HasCenter p) (HasCenter p) (wait_one k r p s) _ (wait_one-HasCenter r p s)
        (λ c h. held rest p c.0 c.1 h (update_for_wait-HasCenter rest c.0 c.1))
