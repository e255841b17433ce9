-- ===== src/Lifetime/Proxy.antt =====
-- The constructor and the destructor of `ProxyServer` (src/proxy/proxy_server.cc) at the center.
use rproxy.Base.{
  ℕ, Bool, true, false, ◌≡◌, refl, ◌∙◌, ◌&&◌, ◌||◌, List, [], ◌∷◌, map, arith, Result, ok, err,
  endless,
}
use rproxy.Base.Eq.{same, nat_eq}
use rproxy.Base.Maps.{contains}
use rproxy.Network.Demultiplex.{Demultiplex, enable_notify}
use rproxy.Pubsub.Event.{PubType, dmp_wait, pub_type_eq}
use rproxy.Pubsub.Center.{Center}
use rproxy.Lifetime.{Given, is_empty, init_group, join_all, open_proxy, close_proxy}
use rproxy.Lifetime.View.{View, View-weaken, unknown_silent, register_pub-View}
use rproxy.Lifetime.Group.{
  among, among_given, AllGranted, subscribe_all-View, un_subscribe_all-View, open_all-View,
  close_all-View,
}

among-quiet : (i : ℕ) (ds : List Demultiplex) → among i (map (enable_notify false) ds) ≡ among i ds
unfolding enable_notify
among-quiet i [] = refl
among-quiet i (d ∷ ds) = rw (among-quiet i ds) refl

-- None of them notifies of its own accord.
abbrev pub AllQuiet : List Demultiplex → Type 0
AllQuiet [] = Unit {0}
AllQuiet (d ∷ ds) = (d.notify ≡ false) × AllQuiet ds

quiet-AllQuiet : (ds : List Demultiplex) → AllQuiet (map (enable_notify false) ds)
unfolding enable_notify
quiet-AllQuiet [] = tt
quiet-AllQuiet (d ∷ ds) = (refl, quiet-AllQuiet ds)

module _ {knows : ℕ → Bool} {told : ℕ → PubType → ℕ → Bool} {c : Center}
    (v : View c knows told) where
  -- A server is made, and what its destructor does at once.
  abbrev pub Lives : ℕ → ℕ → Result (List Demultiplex × Center) → Type 0
  Lives pub_id this r =
      (ds : List Demultiplex) × (c₁ : Center) × (r ≡ ok (ds, c₁))
      × View c₁ (λ i. same pub_id i || (among i ds || knows i))
          (λ i t x. (among i ds && (same dmp_wait t && same this x)) || told i t x)
      × AllQuiet ds
      × (close_proxy false ds this c₁ ≡ err endless)
      × (c₂ : Center) × (close_proxy true ds this c₁ ≡ ok c₂)
      × View c₂ (λ i. same pub_id i || knows i) told

  -- The constructor of a proxy server, where the pipe and each epoll instance are made, with
  -- identities that the center does not know, succeeds. The server hears of the waits of its
  -- demultiplexers and nobody is told anything more; no demultiplexer notifies of its own accord; the
  -- center knows the demultiplexers and the server. The destructor does not return where the threads
  -- of the group are not stopped; where they are, the center tells what it did before, but it still
  -- knows the server.
  pub open_proxy-Lives :
      (ms : List Given) (pub_id this : ℕ)
      → is_empty ms ≡ false
      → AllGranted ms
      → ((i : ℕ) → among_given i ms ≡ true → (knows i ≡ false) × (same pub_id i ≡ false))
      → Lives pub_id this (open_proxy true ms pub_id this c)
  unfolding open_proxy close_proxy init_group join_all contains
  open_proxy-Lives ms pub_id this some_ms given new =
      let (all, c₁, opened, v₁, ids) = open_all-View ms given v in
      let ds = map (enable_notify false) all in
      let same_ids : (i : ℕ) → among i ds ≡ among_given i ms = λ i. among-quiet i all ∙ ids i in
      let (c₂, told_of, v₂) = subscribe_all-View this ds (dmp_wait ∷ []) v₁ in
      let (c₃, registered, v₃) = register_pub-View v₂ pub_id this in
      let (c₄, gone, v₄) = un_subscribe_all-View this ds (dmp_wait ∷ []) v₃ in
      (
        ds,
        c₃,
        rw (some_ms, opened, told_of, registered) refl,
        View-weaken v₃ (λ i. ground (arith, among-quiet i all))
            (λ i t x. ground (arith, among-quiet i all)),
        quiet-AllQuiet all,
        rw gone refl,
        _,
        rw gone refl,
        View-weaken (close_all-View ds v₄) (λ i. ground (arith, ids i, same_ids i, new i))
            (λ i t x. ground (arith, ids i, same_ids i, new i, unknown_silent v i t x)),
      )
