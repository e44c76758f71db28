-- ===== src/Examples/Echo/Main.antt =====
-- examples/network_example.cpp: `main`, `init_connection` and `init_listener`, without their waiting.
use yaaf.Common.{ℕ, Bool, [], ◌∷◌, Str}
use yaaf.Common.Outcomes.{Outcome, ok, ◌>>=◌}
use yaaf.Address.{no_address}
use yaaf.Payload.Typed.{Messages}
use yaaf.Context.State.{Context}
use yaaf.Context.Add.{add_actor}
use yaaf.Context.Lookup.{get_address}
use yaaf.Context.Send.{send_envelope}
use yaaf.Context.Lifecycle.{construct}
use yaaf.Network.Values.{NetworkLib, listener_params, dial_params, Held, NetworkContext}
use yaaf.Network.Links.{network_start}
use yaaf.Examples.Echo.{
  net_root_name, root_actor, usr_actor, sys_actor, supervisor, initiator, connection_actor,
  listener_actor, payload_with, program,
}

-- "con_context", "listen_context", "test_initiator_actor", "connection_actor" and "listener_actor"
abbrev con_context : Str
con_context = b'c' ∷ b'o' ∷ b'n' ∷ b'_' ∷ b'c' ∷ b'o' ∷ b'n' ∷ b't' ∷ b'e' ∷ b'x' ∷ b't' ∷ []

abbrev listen_context : Str
listen_context =
    b'l' ∷ b'i' ∷ b's' ∷ b't' ∷ b'e' ∷ b'n' ∷ b'_' ∷ b'c' ∷ b'o' ∷ b'n' ∷ b't' ∷ b'e' ∷ b'x' ∷ b't'
    ∷ []

abbrev initiator_short : Str
initiator_short =
    b't' ∷ b'e' ∷ b's' ∷ b't' ∷ b'_' ∷ b'i' ∷ b'n' ∷ b'i' ∷ b't' ∷ b'i' ∷ b'a' ∷ b't' ∷ b'o' ∷ b'r'
    ∷ b'_' ∷ b'a' ∷ b'c' ∷ b't' ∷ b'o' ∷ b'r' ∷ []

abbrev connection_short : Str
connection_short =
    b'c' ∷ b'o' ∷ b'n' ∷ b'n' ∷ b'e' ∷ b'c' ∷ b't' ∷ b'i' ∷ b'o' ∷ b'n' ∷ b'_' ∷ b'a' ∷ b'c' ∷ b't'
    ∷ b'o' ∷ b'r' ∷ []

abbrev listener_short : Str
listener_short =
    b'l' ∷ b'i' ∷ b's' ∷ b't' ∷ b'e' ∷ b'n' ∷ b'e' ∷ b'r' ∷ b'_' ∷ b'a' ∷ b'c' ∷ b't' ∷ b'o' ∷ b'r'
    ∷ []

module _ (lib : NetworkLib) (texts : Messages) (double_checks : Bool) (ensure_text : Str) where
  -- `make_context`.
  new_network : ℕ → Str → Outcome (NetworkContext lib)
  unfolding network_start construct
  new_network self_id name =
      network_start lib (program lib texts double_checks ensure_text) root_actor usr_actor sys_actor
        supervisor
        (record {
          context = construct self_id name;
          net_root = no_address;
          network_listeners = [];
          network_connections = [];
          library_calls = [];
        })

  unfoldable pub init_connection : Context (Held lib) → Outcome (Context (Held lib))
  unfolding add_actor
  init_connection s =
      let p = program lib texts double_checks ensure_text in
      add_actor p initiator_short no_address initiator s >>= λ (a, s1).
      add_actor p connection_short no_address connection_actor s1 >>= λ (b, s2). ok s2

  unfoldable pub init_listener : Context (Held lib) → Outcome (Context (Held lib))
  unfolding add_actor
  init_listener s =
      add_actor (program lib texts double_checks ensure_text) listener_short no_address
        listener_actor s
      >>= λ (a, s1). ok s1

  -- `main`, up to its waiting: the two contexts. The listener's parameters are sent to the address
  -- that the other context has for "/root/net".
  unfoldable pub main :
      lib.DialParams
      → lib.ListenerParams
      → ℕ
      → ℕ
      → Outcome (NetworkContext lib × NetworkContext lib)
  unfolding new_network send_envelope get_address init_connection init_listener
  main dp lp con_id lst_id =
      let p = program lib texts double_checks ensure_text in
      new_network con_id con_context >>= λ con.
      let net = get_address net_root_name con.context in
      send_envelope p net
        (record { payload = payload_with lib texts dial_params dp; sender = no_address })
        con.context
      >>= λ c1. new_network lst_id listen_context >>= λ lst.
          send_envelope p net
            (record { payload = payload_with lib texts listener_params lp; sender = no_address })
            lst.context
          >>= λ l1. init_connection c1 >>= λ c2. init_listener l1 >>= λ l2.
              ok (record con { context = c2 }, record lst { context = l2 })
