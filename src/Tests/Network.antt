-- ===== src/Tests/Network.antt =====
-- Two contexts with a network: a message to the listener's side and the answer, and a connection.
use yaaf.Common.{
  ℕ, ◌<◌, ◌≡◌, refl, false, true, contains, none, some, [], ◌∷◌, Str, All, lookup, insert, adjust,
  nat_eq, str_eq, ◌==◌, arith, if◌then◌else◌,
}
use yaaf.Common.Outcomes.{ok}
use yaaf.Address.{no_address, null_name}
use yaaf.Payload.Typed.{Messages, pack_value}
use yaaf.Actor.{UserContext, resume}
use yaaf.Serialization.{capacity, calculate_args_size, size}
use yaaf.Serialization.RoundTrip.{Fits}
use yaaf.Context.State.{Context, Program, Description, new_context, returns}
use yaaf.Context.Lifecycle.{construct, start}
use yaaf.Context.Lifecycle.Laws.{start-IsRegistry}
use yaaf.Context.Registry.{IsRegistry}
use yaaf.Network.{Message, packed, fields}
use yaaf.Network.Values.{
  NetworkLib, NetworkActorMessage, ListenerActorMessage, network_actor_message,
  listener_actor_message, network_types, Held, send_async, send_to, disconnect, NetworkContext,
}
use yaaf.Network.Actors.{
  NetworkLstActor, NetworkConActor, lst_action_handle, lst_on_new_message, con_action_handle,
  con_on_new_message,
}
use yaaf.Network.Arrival.{
  Got, lst_on_new_message-con_action_handle, con_on_new_message-lst_action_handle,
}
use yaaf.Network.Links.{add_connection_to, erase_connections, params_eq}
use yaaf.Network.Links.Laws.{or_else, erase_connections-add_connection_to}
use yaaf.Tests.Data.{value_or}
use yaaf.Tests.Bytes.{dialler}

-- Ports alone as parameters.
abbrev pub lib : NetworkLib
lib = record {
  messages = dialler;
  ListenerParams = ℕ;
  listener_port = λ p. p;
  DialParams = ℕ;
  host = λ p. b'h' ∷ [];
  port = λ p. p;
  same_params = nat_eq;
  Value = λ n. ℕ;
}

abbrev program : Program (Held lib)
program = record {
  double_checks = false;
  ensure_text = [];
  stops = λ a b. b;
  decides = λ a events addr. resume;
  starts = λ a events. returns;
  handles = λ a events e. returns;
}

abbrev pub texts : Messages
texts = record { bad_cast = []; null_holder = [] }

unfoldable serving : Context (Held lib)
unfolding start construct
serving = value_or (new_context []) (start program 10 11 12 (construct 7 []))

serving_run : start program 10 11 12 (construct 7 []) ≡ ok serving
unfolding start construct serving lookup insert adjust
serving_run = refl

abbrev network : NetworkContext lib
network = record {
  context = serving;
  net_root = record { id = 3; pathname = b's' ∷ [] };
  network_listeners = [];
  network_connections = [];
  library_calls = [];
}

-- "/root/usr"
abbrev usr_text : Str
usr_text = b'/' ∷ b'r' ∷ b'o' ∷ b'o' ∷ b't' ∷ b'/' ∷ b'u' ∷ b's' ∷ b'r' ∷ []

unfoldable sys_context : UserContext
sys_context = or_else (record { addr = no_address; name = [] }) (serving.objects 12).ctx

unfoldable usr_description : Description
usr_description =
    or_else
      (record {
        actor = 0;
        address = no_address;
        usrcont = none;
        name = [];
        parent = 0;
        children = [];
      })
      (lookup 2 serving.actors)

usr_there :
    ((serving.objects 12).ctx ≡ some sys_context)
    × ((sys_context.addr.pathname == null_name) ≡ false)
    × (lookup usr_text serving.id_by_name ≡ some 2)
    × (lookup 2 serving.actors ≡ some usr_description)
    × (lookup 2 serving.mboxes ≡ some 1)
    × (serving.stopping_begin ≡ false)
unfolding sys_context usr_description serving start construct lookup insert adjust contains
usr_there = (refl, refl, refl, refl, refl, refl)

serving-IsRegistry : IsRegistry serving
serving-IsRegistry = (start-IsRegistry program 7 [] 10 11 12 serving serving_run).0

-- The connection's actor is 10, the listener's or the answering side's 12.
abbrev con : NetworkConActor lib
con = record { self = 12; con = 5; cp = 80; target_host = [] }

abbrev lst : NetworkLstActor
lst = record { self = 12; port = 80 }

abbrev to_usr : NetworkActorMessage
to_usr = record { name = usr_text; data_bytes = 1 ∷ 2 ∷ [] }

abbrev answer : ListenerActorMessage
answer = record { sender_id = 4; name = usr_text; data_bytes = 1 ∷ 2 ∷ [] }

to_usr-Fits : All Fits (fields (packed usr_text (1 ∷ 2 ∷ [])))
unfolding fields
to_usr-Fits = (omega arith, (omega arith, tt))

to_usr_room : capacity (fields (packed usr_text (1 ∷ 2 ∷ []))) < 100
unfolding fields capacity calculate_args_size size
to_usr_room = omega arith

lst_on_new_message-con_action_handle_example :
    (m : Message) × (con_action_handle lib texts program true con
        (record {
          payload = pack_value (network_types lib) texts network_actor_message to_usr;
          sender = no_address;
        })
        network
      ≡ ok (record network { library_calls = send_async 5 m ∷ [] }))
    × (n : NetworkContext lib) × (lst_on_new_message lib texts program true lst 4 m network ≡ ok n)
    × Got lib texts program 1
        (record {
          payload = pack_value (network_types lib) texts listener_actor_message answer;
          sender = sys_context.addr;
        })
        network
        n
lst_on_new_message-con_action_handle_example =
    lst_on_new_message-con_action_handle lib texts program program con no_address to_usr network lst
      4 sys_context 2 usr_description 1 network to_usr-Fits to_usr_room usr_there.0
      serving-IsRegistry usr_there.5 usr_there.1 refl usr_there.2 usr_there.3 usr_there.4

con_on_new_message-lst_action_handle_example :
    (m : Message) × (lst_action_handle lib texts program true lst
        (record {
          payload = pack_value (network_types lib) texts listener_actor_message answer;
          sender = no_address;
        })
        network
      ≡ ok (record network { library_calls = send_to 12 4 m ∷ [] }))
    × (n : NetworkContext lib) × (con_on_new_message lib texts program true con m network ≡ ok n)
    × Got lib texts program 1
        (record {
          payload = pack_value (network_types lib) texts network_actor_message to_usr;
          sender = sys_context.addr;
        })
        network
        n
con_on_new_message-lst_action_handle_example =
    con_on_new_message-lst_action_handle lib texts program program lst no_address answer network con
      sys_context 2 usr_description 1 network to_usr-Fits to_usr_room usr_there.0 serving-IsRegistry
      usr_there.5 usr_there.1 refl usr_there.2 usr_there.3 usr_there.4

-- A second connection to port 80, below "usr".
abbrev connected : NetworkContext lib
connected = record network {
  net_root = record { id = 2; pathname = usr_text };
  network_connections = (80, 5) ∷ [];
}

unfoldable reconnected : NetworkContext lib
unfolding add_connection_to
reconnected = value_or connected (add_connection_to lib program 80 6 13 connected)

reconnected_run : add_connection_to lib program 80 6 13 connected ≡ ok reconnected
unfolding reconnected add_connection_to serving start construct lookup insert adjust
reconnected_run = refl

erase_connections-add_connection_to_example :
    ((erase_connections lib program 80 reconnected).library_calls
      ≡ disconnect 5 ∷ reconnected.library_calls)
    × (erase_connections lib program 80 (erase_connections lib program 80 reconnected)
        ≡ erase_connections lib program 80 reconnected)
    × ((p : ℕ)
        → lookup p (erase_connections lib program 80 reconnected).network_connections
          ≡ (if 80 == p then none else lookup p connected.network_connections))
unfolding lookup
erase_connections-add_connection_to_example =
    erase_connections-add_connection_to lib program 80 6 13 connected reconnected reconnected_run
