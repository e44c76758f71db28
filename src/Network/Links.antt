-- ===== src/Network/Links.antt =====
-- libyaaf/context_network.cpp: `network_init`, and the listeners and connections that a context adds and
-- erases; libyaaf/context.cpp: the network's part of `stop`. The objects that `std::make_shared` makes
-- are arguments; the threads that poll libdialler are not modelled.
pub mod Laws
use yaaf.Common.{
  ℕ, Bool, if◌then◌else◌, Option, none, some, is_some, List, [], ◌∷◌, ◌++◌, Str, Eq, nat_eq, lookup,
  erase, insert,
}
use yaaf.Common.Outcomes.{Outcome, ok, thrown, null_deref, ◌>>=◌}
use yaaf.Strings.{args_to_string}
use yaaf.Context.State.{Context, Program, ActorPtr}
use yaaf.Context.Add.{add_actor, to_string}
use yaaf.Context.Exchanges.{create_exchange}
use yaaf.Context.Lifecycle.{start, stop}
use yaaf.Network.Values.{
  NetworkLib, ListenerPtr, DialPtr, LibraryCall, dial_add_consumer, listener_add_consumer,
  start_async_connection, disconnect, dial_wait_stoping, listener_start, wait_starting,
  listener_stop, listener_wait_stoping, Held, NetworkContext,
}

-- "net", "listen_", ":" and "/root/net/"
abbrev pub net_name : Str
net_name = b'n' ∷ b'e' ∷ b't' ∷ []

abbrev pub listen_prefix : Str
listen_prefix = b'l' ∷ b'i' ∷ b's' ∷ b't' ∷ b'e' ∷ b'n' ∷ b'_' ∷ []

abbrev pub colon : Str
colon = b':' ∷ []

abbrev pub net_prefix : Str
net_prefix = b'/' ∷ b'r' ∷ b'o' ∷ b'o' ∷ b't' ∷ b'/' ∷ b'n' ∷ b'e' ∷ b't' ∷ b'/' ∷ []

-- `insert` of a pair, which leaves a key that is there alone.
abbrev pub insert_new {ℓ κ} :
    {K : Type ℓ} {V : Type κ} ⦃e : Eq K⦄ → K → V → List (K × V) → List (K × V)
insert_new k v m = if is_some (lookup k m) then m else insert k v m

module _ (lib : NetworkLib) (program : Program (Held lib)) where
  instance abbrev pub params_eq : Eq lib.DialParams
  params_eq = lib.same_params

  -- `args_to_string(cp.host, ":", cp.port)`.
  unfoldable pub target_host_of : lib.DialParams → Str
  unfolding args_to_string to_string
  target_host_of cp = args_to_string (lib.host cp ∷ colon ∷ to_string (lib.port cp) ∷ [])

  -- `network_init`, with the object of `network_supervisor_actor`.
  unfoldable pub network_init : ActorPtr → NetworkContext lib → Outcome (NetworkContext lib)
  unfolding add_actor
  network_init supervisor n =
      add_actor program net_name n.context.root supervisor n.context >>= λ (net_root, c).
      ok (record n { context = c; net_root = net_root })

  -- `start`, with the objects of the actors that it adds.
  unfoldable pub network_start :
      ActorPtr → ActorPtr → ActorPtr → ActorPtr → NetworkContext lib → Outcome (NetworkContext lib)
  unfolding start network_init
  network_start root usr sys supervisor n = start program root usr sys n.context >>= λ c.
      network_init supervisor (record n { context = c })

  unfoldable pub add_listener_on :
      lib.ListenerParams
      → ListenerPtr
      → ActorPtr
      → NetworkContext lib
      → Outcome (NetworkContext lib)
  unfolding add_actor to_string
  add_listener_on lp l saptr n =
      add_actor program (listen_prefix ++ to_string (lib.listener_port lp)) n.net_root saptr
        n.context
      >>= λ (lactor, c). ok (record n {
        context = c;
        library_calls =
            wait_starting l ∷ listener_start l ∷ listener_add_consumer l saptr ∷ n.library_calls;
        network_listeners = insert_new (lib.listener_port lp) l n.network_listeners;
      })

  unfoldable pub erase_found_listener :
      ℕ → Option ListenerPtr → NetworkContext lib → NetworkContext lib
  erase_found_listener port none n = n
  erase_found_listener port (some l) n = record n {
    library_calls = listener_stop l ∷ n.library_calls;
    network_listeners = erase port n.network_listeners;
  }

  unfoldable pub erase_listener_on : ℕ → NetworkContext lib → NetworkContext lib
  unfolding erase_found_listener
  erase_listener_on port n = erase_found_listener port (lookup port n.network_listeners) n

  unfoldable pub add_connection_to :
      lib.DialParams → DialPtr → ActorPtr → NetworkContext lib → Outcome (NetworkContext lib)
  unfolding target_host_of create_exchange add_actor to_string
  add_connection_to cp l saptr n =
      let c = create_exchange n.net_root (net_prefix ++ target_host_of cp) n.context in
      add_actor program (lib.host cp ++ (colon ++ to_string (lib.port cp))) n.net_root saptr c
      >>= λ (lactor, c'). ok (record n {
        context = c';
        library_calls = start_async_connection l ∷ dial_add_consumer l saptr ∷ n.library_calls;
        network_connections = insert_new cp l n.network_connections;
      })

  unfoldable pub erase_found_connection :
      lib.DialParams → Option DialPtr → NetworkContext lib → NetworkContext lib
  erase_found_connection cp none n = n
  erase_found_connection cp (some l) n = record n {
    library_calls = disconnect l ∷ n.library_calls;
    network_connections = erase cp n.network_connections;
  }

  unfoldable pub erase_connections : lib.DialParams → NetworkContext lib → NetworkContext lib
  unfolding erase_found_connection
  erase_connections cp n = erase_found_connection cp (lookup cp n.network_connections) n

  -- The loops of `stop`; the newest call is first.
  disconnect_each : List (lib.DialParams × DialPtr) → List LibraryCall → List LibraryCall
  disconnect_each [] calls = calls
  disconnect_each ((cp, l) ∷ ls) calls =
      disconnect_each ls (dial_wait_stoping l ∷ disconnect l ∷ calls)

  stop_listeners : List (ℕ × ListenerPtr) → List LibraryCall → List LibraryCall
  stop_listeners [] calls = calls
  stop_listeners ((port, l) ∷ ls) calls =
      stop_listeners ls (listener_wait_stoping l ∷ listener_stop l ∷ calls)

  -- `stop`, before the actors' `on_stop`.
  unfoldable pub network_stop : NetworkContext lib → Outcome (NetworkContext lib)
  unfolding disconnect_each stop_listeners stop
  network_stop n = stop program n.context >>= λ c. ok (record n {
    context = c;
    library_calls =
        stop_listeners n.network_listeners (disconnect_each n.network_connections n.library_calls);
    network_listeners = [];
  })
