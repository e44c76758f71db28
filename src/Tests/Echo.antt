-- ===== src/Tests/Echo.antt =====
-- The network example: the two contexts, and the way of the bytes.
use yaaf.Common.{
  ℕ, ◌+◌, ◌<◌, ◌≡◌, refl, false, true, none, some, [], ◌∷◌, Str, lookup, insert, adjust, contains,
  nat_eq, str_eq, ◌==◌, arith,
}
use yaaf.Common.Outcomes.{ok, is_ok}
use yaaf.Address.{u64_mod, Address, no_address, null_name}
use yaaf.Actor.{UserContext}
use yaaf.Context.State.{Context, Program, Description, new_context}
use yaaf.Context.Add.{add_actor}
use yaaf.Context.Lifecycle.{construct, start}
use yaaf.Context.Lifecycle.Laws.{start-IsRegistry}
use yaaf.Context.Registry.{IsRegistry}
use yaaf.Context.Registry.NewActor.{add_actor-IsRegistry}
use yaaf.Network.Values.{Held, NetworkContext}
use yaaf.Network.Actors.{NetworkLstActor, NetworkConActor}
use yaaf.Network.Links.Laws.{or_else}
use yaaf.Examples.Echo.{
  connection_name, listener_name, link_name, root_actor, usr_actor, sys_actor, supervisor,
  connection_actor, listener_actor, program,
}
use yaaf.Examples.Echo.Main.{main, init_connection, init_listener}
use yaaf.Context.Send.{send_envelope}
use yaaf.Context.Lookup.{get_address}
use yaaf.Examples.Echo.Trip.{Found}
use yaaf.Examples.Echo.Sides.{IsListening, IsConnecting}
use yaaf.Examples.Echo.Return.{Returns, echo-Returns}
use yaaf.Tests.Data.{value_or}
use yaaf.Tests.Network.{lib, texts}

abbrev actors : Program (Held lib)
actors = program lib texts false []

abbrev made : Address → Str → ℕ → Context (Held lib) → Address × Context (Held lib)
made parent name a s = value_or (no_address, s) (add_actor actors name parent a s)

unfoldable begun : Context (Held lib)
unfolding start construct
begun = value_or (new_context []) (start actors root_actor usr_actor sys_actor (construct 7 []))

begun_run : start actors root_actor usr_actor sys_actor (construct 7 []) ≡ ok begun
unfolding begun start construct lookup insert adjust
begun_run = refl

begun-IsRegistry : IsRegistry begun
begun-IsRegistry = (start-IsRegistry actors 7 [] root_actor usr_actor sys_actor begun begun_run).0

-- The network's root, then the network's and the users' actors, all in one context.
abbrev rooted_name : Str
rooted_name = b'n' ∷ b'e' ∷ b't' ∷ []

unfoldable rooted : Address × Context (Held lib)
unfolding add_actor
rooted = made (begun.root) rooted_name supervisor begun

rooted_run : add_actor actors rooted_name (begun.root) supervisor begun ≡ ok rooted
unfolding rooted add_actor begun start construct lookup insert adjust
rooted_run = refl

rooted_room : begun.next_actor_id + 1 < u64_mod
unfolding add_actor begun start construct lookup insert adjust
rooted_room = omega arith

rooted-IsRegistry : IsRegistry rooted.1
rooted-IsRegistry =
    add_actor-IsRegistry actors rooted_name (begun.root) supervisor begun rooted.1 rooted.0
      begun-IsRegistry rooted_room rooted_run

abbrev linked_name : Str
linked_name =
    b'l' ∷ b'o' ∷ b'c' ∷ b'a' ∷ b'l' ∷ b'h' ∷ b'o' ∷ b's' ∷ b't' ∷ b':' ∷ b'9' ∷ b'0' ∷ b'8' ∷ b'0'
    ∷ []

unfoldable linked : Address × Context (Held lib)
unfolding add_actor
linked = made (rooted.0) linked_name 20 rooted.1

linked_run : add_actor actors linked_name (rooted.0) 20 rooted.1 ≡ ok linked
unfolding linked rooted add_actor begun start construct lookup insert adjust
linked_run = refl

linked_room : rooted.1.next_actor_id + 1 < u64_mod
unfolding rooted add_actor begun start construct lookup insert adjust
linked_room = omega arith

linked-IsRegistry : IsRegistry linked.1
linked-IsRegistry =
    add_actor-IsRegistry actors linked_name (rooted.0) 20 rooted.1 linked.1 linked.0
      rooted-IsRegistry linked_room linked_run

abbrev listened_name : Str
listened_name = b'l' ∷ b'i' ∷ b's' ∷ b't' ∷ b'e' ∷ b'n' ∷ b'_' ∷ b'9' ∷ b'0' ∷ b'8' ∷ b'0' ∷ []

unfoldable listened : Address × Context (Held lib)
unfolding add_actor
listened = made (rooted.0) listened_name 21 linked.1

listened_run : add_actor actors listened_name (rooted.0) 21 linked.1 ≡ ok listened
unfolding listened linked rooted add_actor begun start construct lookup insert adjust
listened_run = refl

listened_room : linked.1.next_actor_id + 1 < u64_mod
unfolding linked rooted add_actor begun start construct lookup insert adjust
listened_room = omega arith

listened-IsRegistry : IsRegistry listened.1
listened-IsRegistry =
    add_actor-IsRegistry actors listened_name (rooted.0) 21 linked.1 listened.1 listened.0
      linked-IsRegistry listened_room listened_run

abbrev connected_name : Str
connected_name =
    b'c' ∷ b'o' ∷ b'n' ∷ b'n' ∷ b'e' ∷ b'c' ∷ b't' ∷ b'i' ∷ b'o' ∷ b'n' ∷ b'_' ∷ b'a' ∷ b'c' ∷ b't'
    ∷ b'o' ∷ b'r' ∷ []

unfoldable connected : Address × Context (Held lib)
unfolding add_actor
connected = made (no_address) connected_name connection_actor listened.1

connected_run :
    add_actor actors connected_name (no_address) connection_actor listened.1 ≡ ok connected
unfolding connected listened linked rooted add_actor begun start construct lookup insert adjust
connected_run = refl

connected_room : listened.1.next_actor_id + 1 < u64_mod
unfolding listened linked rooted add_actor begun start construct lookup insert adjust
connected_room = omega arith

connected-IsRegistry : IsRegistry connected.1
connected-IsRegistry =
    add_actor-IsRegistry actors connected_name (no_address) connection_actor listened.1 connected.1
      connected.0 listened-IsRegistry connected_room connected_run

abbrev ready_name : Str
ready_name =
    b'l' ∷ b'i' ∷ b's' ∷ b't' ∷ b'e' ∷ b'n' ∷ b'e' ∷ b'r' ∷ b'_' ∷ b'a' ∷ b'c' ∷ b't' ∷ b'o' ∷ b'r'
    ∷ []

unfoldable ready : Address × Context (Held lib)
unfolding add_actor
ready = made (no_address) ready_name listener_actor connected.1

ready_run : add_actor actors ready_name (no_address) listener_actor connected.1 ≡ ok ready
unfolding ready connected listened linked rooted add_actor begun start construct lookup insert
    adjust
ready_run = refl

ready_room : connected.1.next_actor_id + 1 < u64_mod
unfolding connected listened linked rooted add_actor begun start construct lookup insert adjust
ready_room = omega arith

ready-IsRegistry : IsRegistry ready.1
ready-IsRegistry =
    add_actor-IsRegistry actors ready_name (no_address) listener_actor connected.1 ready.1 ready.0
      connected-IsRegistry ready_room ready_run

abbrev network : NetworkContext lib
network = record {
  context = ready.1;
  net_root = rooted.0;
  network_listeners = [];
  network_connections = [];
  library_calls = [];
}

abbrev nobody : UserContext
nobody = record { addr = no_address; name = [] }

abbrev nothing : Description
nothing = record {
  actor = 0;
  address = no_address;
  usrcont = none;
  name = [];
  parent = 0;
  children = [];
}

unfoldable user_of : ℕ → UserContext
user_of a = or_else nobody (ready.1.objects a).ctx

unfoldable described : ℕ → Description
described i = or_else nothing (lookup i ready.1.actors)

-- The link's actor is 5 with the mailbox 4, and so on.
link_found : Found link_name (described 5) 4 ready.1
unfolding described ready connected listened linked rooted add_actor begun start construct lookup
    insert adjust contains
link_found = record { id = 5; leads = refl; live = refl; there = refl }

connection_found : Found connection_name (described 7) 6 ready.1
unfolding described ready connected listened linked rooted add_actor begun start construct lookup
    insert adjust contains
connection_found = record { id = 7; leads = refl; live = refl; there = refl }

listener_found : Found listener_name (described 8) 7 ready.1
unfolding described ready connected listened linked rooted add_actor begun start construct lookup
    insert adjust contains
listener_found = record { id = 8; leads = refl; live = refl; there = refl }

ready_facts :
    (ready.1.stopping_begin ≡ false)
    × ((ready.1.objects 20).ctx ≡ some (user_of 20))
    × ((ready.1.objects 21).ctx ≡ some (user_of 21))
    × (((user_of 20).addr.pathname == null_name) ≡ false)
    × (((user_of 21).addr.pathname == null_name) ≡ false)
    × (((user_of 5).addr.pathname == null_name) ≡ false)
    × (((user_of 6).addr.pathname == null_name) ≡ false)
    × (lookup (user_of 21).addr.id ready.1.mboxes ≡ some 5)
unfolding user_of ready connected listened linked rooted add_actor begun start construct lookup
    insert adjust contains
ready_facts = (refl, refl, refl, refl, refl, refl, refl, refl)

abbrev con : NetworkConActor lib
con = record { self = 20; con = 5; cp = 9080; target_host = [] }

abbrev lst : NetworkLstActor
lst = record { self = 21; port = 9080 }

connecting :
    IsConnecting lib texts con (user_of 20) (user_of 5) (described 5) 4 (described 7) 6 network
connecting = record {
  registry = ready-IsRegistry;
  running = ready_facts.0;
  has = ready_facts.1;
  net_named = ready_facts.3;
  own_named = ready_facts.5;
  linked = link_found;
  found = connection_found;
}

listening : IsListening lib texts lst (user_of 21) (user_of 6) 5 7 (described 8) network
listening = record {
  registry = ready-IsRegistry;
  running = ready_facts.0;
  has = ready_facts.2;
  net_named = ready_facts.4;
  own_named = ready_facts.6;
  net_there = ready_facts.7;
  found = listener_found;
}

echo-Returns_example :
    Returns lib texts false [] con lst 1
      (user_of 20)
      (user_of 5)
      (user_of 21)
      (user_of 6)
      4
      6
      5
      7
      network
      network
      network
      network
echo-Returns_example =
    echo-Returns lib texts false [] con lst 1 (user_of 20) (user_of 5) (user_of 21) (user_of 6)
      (described 5) (described 7) (described 8) 4 6 5 7 network network network network
      (omega arith) connecting listening listening connecting

-- `main` gives two contexts, in each of which the network's root has one envelope.
main_succeeds : is_ok (main lib texts false [] 9080 9080 1 2) ≡ true
unfolding main init_connection init_listener add_actor send_envelope get_address start construct
    lookup insert adjust contains is_ok
main_succeeds = refl
