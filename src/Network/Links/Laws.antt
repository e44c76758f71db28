-- ===== src/Network/Links/Laws.antt =====
-- libyaaf/context_network.cpp: connections that come and go.
use yaaf.Common.{
  ◌≡◌, sym, ap, Option, none, some, List, ◌∷◌, ◌++◌, Eq, ◌==◌, lookup, erase, lookup-erase,
  lookup-insert, beq_refl, arith, if◌then◌else◌, Option-cases, inl, inr,
}
use yaaf.Common.Outcomes.{ok, >>=-eq-ok, ok-injective}
use yaaf.Context.State.{Program, ActorPtr}
use yaaf.Context.Add.{add_actor, to_string}
use yaaf.Context.Exchanges.{create_exchange}
use yaaf.Network.Values.{NetworkLib, DialPtr, disconnect, Held, NetworkContext}
use yaaf.Network.Links.{
  insert_new, add_connection_to, erase_connections, erase_found_connection, params_eq,
  target_host_of, colon, net_prefix,
}

-- The value that is there, or else the given one.
abbrev pub or_else {ℓ} : {A : Type ℓ} → A → Option A → A
or_else a none = a
or_else a (some b) = b

module _ {ℓ κ} {K : Type ℓ} {V : Type κ} ⦃e : Eq K⦄ where
  lookup-insert_new :
      (k j : K) (v : V) (m : List (K × V))
      → lookup j (insert_new k v m) ≡ (if k == j then some (or_else v (lookup k m)) else lookup j m)
  lookup-insert_new k j v m = elim (Option-cases (lookup k m)) [
    | inl missing ↦ ground (arith, missing, lookup-insert k j v m)
    | inr (w, there) ↦ ground (arith, there, e.beq_iff k j)
  ]

module _ (lib : NetworkLib) (program : Program (Held lib)) where
  instance abbrev same : Eq lib.DialParams
  same = lib.same_params

  -- After `add_connection_to` that returns, `erase_connections` for the same parameters disconnects the
  -- dial that was there before, or else the new one, and no other; it leaves no connection for these
  -- parameters, keeps those for others, and a second one does nothing.
  pub erase_connections-add_connection_to :
      (cp : lib.DialParams) (l : DialPtr) (saptr : ActorPtr) (n m : NetworkContext lib)
      → add_connection_to lib program cp l saptr n ≡ ok m
      → let t = erase_connections lib program cp m in
        (t.library_calls
          ≡ disconnect (or_else l (lookup cp n.network_connections)) ∷ m.library_calls)
        × (erase_connections lib program cp t ≡ t)
        × ((p : lib.DialParams)
            → lookup p t.network_connections
              ≡ (if cp == p then none else lookup p n.network_connections))
  unfolding add_connection_to erase_connections erase_found_connection
  erase_connections-add_connection_to cp l saptr n m added =
      let c = create_exchange n.net_root (net_prefix ++ target_host_of lib program cp) n.context in
      let actor_name = lib.host cp ++ (colon ++ to_string (lib.port cp)) in
      let (r, _, last) = >>=-eq-ok (add_actor program actor_name n.net_root saptr c) _ added in
      let conns : m.network_connections ≡ insert_new cp l n.network_connections =
        sym (ap (λ (t : NetworkContext lib). t.network_connections) (ok-injective last)) in
      let kept = lookup-insert_new cp cp l n.network_connections in
      let found : lookup cp m.network_connections
          ≡ some (or_else l (lookup cp n.network_connections)) =
        ground (arith, conns, kept, beq_refl cp) in
      let gone : lookup cp (erase cp m.network_connections) ≡ none =
        ground (arith, lookup-erase cp cp m.network_connections, beq_refl cp) in
      (
        rw found,
        rw (found, erase_found_connection, gone),
        λ p. ground (
          arith,
          found,
          conns,
          lookup-erase cp p m.network_connections,
          lookup-insert_new cp p l n.network_connections,
        ),
      )
