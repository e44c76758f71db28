-- ===== src/Examples/Echo.antt =====
-- examples/network_example.cpp: a connection's side sends bytes to an actor of the listener's side, which
-- answers with the same bytes.
pub mod Main
pub mod Trip
pub mod Sides
pub mod Return
use yaaf.Common.{ℕ, ◌+◌, ◌%◌, ◌^◌, Bool, if◌then◌else◌, List, [], ◌∷◌, Str, nat_eq, ◌==◌}
use yaaf.Common.Outcomes.{Outcome, ok, thrown, null_deref, out_of_fuel, ◌>>=◌}
use yaaf.Address.{no_address}
use yaaf.Payload.{Payload, Envelope}
use yaaf.Payload.Typed.{Messages, pack_value, cast}
use yaaf.Actor.{on_stop, default_on_child_error}
use yaaf.Context.State.{
  Context, Program, ActorPtr, Event, action_handle, Answer, an_address, Method, returns, throws,
  crashes, calls, calls_send, calls_subscribe, calls_get_address,
}
use yaaf.Context.Add.{add_actor}
use yaaf.Context.Lookup.{get_address}
use yaaf.Context.Send.{send_envelope}
use yaaf.Context.Lifecycle.{construct}
use yaaf.Network.Values.{
  NetworkLib, NetworkTag, NetworkVal, network_actor_message, listener_actor_message,
  connection_status_message, listener_params, dial_params, network_types, Held, NetworkContext,
}
use yaaf.Network.Links.{network_start}

-- `tst_net_data`.
abbrev pub tst_net_data : List ℕ
tst_net_data = 0 ∷ 1 ∷ 2 ∷ 3 ∷ 4 ∷ 5 ∷ 6 ∷ []

-- "/root/usr/connection_actor", "/root/usr/listener_actor", "/root/net/localhost:9080" and "/root/net"
abbrev pub connection_name : Str
connection_name =
    b'/' ∷ b'r' ∷ b'o' ∷ b'o' ∷ b't' ∷ b'/' ∷ b'u' ∷ b's' ∷ b'r' ∷ b'/' ∷ b'c' ∷ b'o' ∷ b'n' ∷ b'n'
    ∷ b'e' ∷ b'c' ∷ b't' ∷ b'i' ∷ b'o' ∷ b'n' ∷ b'_' ∷ b'a' ∷ b'c' ∷ b't' ∷ b'o' ∷ b'r' ∷ []

abbrev pub listener_name : Str
listener_name =
    b'/' ∷ b'r' ∷ b'o' ∷ b'o' ∷ b't' ∷ b'/' ∷ b'u' ∷ b's' ∷ b'r' ∷ b'/' ∷ b'l' ∷ b'i' ∷ b's' ∷ b't'
    ∷ b'e' ∷ b'n' ∷ b'e' ∷ b'r' ∷ b'_' ∷ b'a' ∷ b'c' ∷ b't' ∷ b'o' ∷ b'r' ∷ []

abbrev pub link_name : Str
link_name =
    b'/' ∷ b'r' ∷ b'o' ∷ b'o' ∷ b't' ∷ b'/' ∷ b'n' ∷ b'e' ∷ b't' ∷ b'/' ∷ b'l' ∷ b'o' ∷ b'c' ∷ b'a'
    ∷ b'l' ∷ b'h' ∷ b'o' ∷ b's' ∷ b't' ∷ b':' ∷ b'9' ∷ b'0' ∷ b'8' ∷ b'0' ∷ []

abbrev pub net_root_name : Str
net_root_name = b'/' ∷ b'r' ∷ b'o' ∷ b'o' ∷ b't' ∷ b'/' ∷ b'n' ∷ b'e' ∷ b't' ∷ []

-- The objects: those that the contexts make themselves, and the actors.
abbrev pub root_actor : ActorPtr
root_actor = 0

abbrev pub usr_actor : ActorPtr
usr_actor = 1

abbrev pub sys_actor : ActorPtr
sys_actor = 2

abbrev pub supervisor : ActorPtr
supervisor = 3

abbrev pub initiator : ActorPtr
initiator = 4

abbrev pub connection_actor : ActorPtr
connection_actor = 5

abbrev pub listener_actor : ActorPtr
listener_actor = 6

-- `std::accumulate` into an `unsigned char`.
unfoldable pub accumulate : List ℕ → ℕ → ℕ
accumulate [] sum = sum
accumulate (x ∷ xs) sum = accumulate xs ((sum + x) % 2 ^ 8)

module _ (lib : NetworkLib) (texts : Messages) where
  abbrev pub payload_with : (t : NetworkTag) → NetworkVal lib t → Payload (Held lib)
  payload_with t v = pack_value (network_types lib) texts t v

  -- `e.payload.cast<...>()`, and what follows it.
  unfoldable pub with_value : {A : Type 0} → Outcome A → (A → Method (Held lib)) → Method (Held lib)
  with_value (ok v) next = next v
  with_value (thrown what) next = throws what
  with_value null_deref next = crashes
  with_value out_of_fuel next = crashes

  -- `listener_actor::action_handle`; its sum is `listener_sum`.
  unfoldable pub listener_action_handle : Envelope (Held lib) → Method (Held lib)
  unfolding with_value cast
  listener_action_handle e =
      with_value (cast (network_types lib) texts listener_actor_message e.payload) (λ v.
        calls
          (calls_send e.sender (
            payload_with listener_actor_message (record {
              sender_id = v.sender_id;
              name = connection_name;
              data_bytes = v.data_bytes;
            })))
          (λ ans. returns))

  -- `connection_actor::action_handle`; its sum is `connection_sum`.
  unfoldable pub connection_action_handle : Envelope (Held lib) → Method (Held lib)
  unfolding with_value cast
  connection_action_handle e =
      with_value (cast (network_types lib) texts network_actor_message e.payload) (λ v. returns)

  -- `connection_started_actor::on_start`.
  unfoldable pub initiator_on_start : Method (Held lib)
  initiator_on_start = calls (calls_subscribe link_name) (λ ans. returns)

  unfoldable pub send_data : Answer → Method (Held lib)
  send_data (an_address con_actor_addr) =
      calls
        (calls_send con_actor_addr (
          payload_with network_actor_message
            (record { name = listener_name; data_bytes = tst_net_data })))
        (λ ans. returns)
  send_data ans = returns

  -- `connection_started_actor::action_handle`.
  unfoldable pub initiator_action_handle : Envelope (Held lib) → Method (Held lib)
  unfolding with_value cast send_data
  initiator_action_handle e =
      with_value (cast (network_types lib) texts connection_status_message e.payload) (λ status.
        if status.is_connected
        then calls (calls_get_address link_name) (λ ans. send_data ans)
        else returns)

  -- Each of the two handlers adds the bytes of what it could cast.
  unfoldable pub added_to : {A : Type 0} → (A → List ℕ) → Outcome A → ℕ → ℕ
  unfolding accumulate
  added_to bytes (ok v) sum = accumulate (bytes v) sum
  added_to bytes r sum = sum

  -- `sum_` of the listener's actor, and of the connection's.
  unfoldable pub listener_sum : List (Event (Held lib)) → ℕ
  unfolding added_to cast
  listener_sum [] = 0
  listener_sum (action_handle a e ∷ es) =
      let before = listener_sum es in
      if a == listener_actor
      then added_to (λ v. v.data_bytes)
          (cast (network_types lib) texts listener_actor_message e.payload) before
      else before
  listener_sum (e ∷ es) = listener_sum es

  unfoldable pub connection_sum : List (Event (Held lib)) → ℕ
  unfolding added_to cast
  connection_sum [] = 0
  connection_sum (action_handle a e ∷ es) =
      let before = connection_sum es in
      if a == connection_actor
      then added_to (λ v. v.data_bytes)
          (cast (network_types lib) texts network_actor_message e.payload) before
      else before
  connection_sum (e ∷ es) = connection_sum es

  -- The actors of the program, in a build with `DOUBLE_CHECKS` or without. The network's own actors are
  -- functions on a `NetworkContext`.
  abbrev pub program : Bool → Str → Program (Held lib)
  program double_checks ensure_text = record {
    double_checks = double_checks;
    ensure_text = ensure_text;
    stops = λ a o. on_stop o;
    decides = λ a events addr. default_on_child_error addr;
    starts = λ a events. if a == initiator then initiator_on_start else returns;
    handles = λ a events e.
        if a == listener_actor
        then listener_action_handle e
        else if a == connection_actor
        then connection_action_handle e
        else if a == initiator
        then initiator_action_handle e
        else returns;
  }
