-- ===== src/Examples/Echo/Trip.antt =====
-- examples/network_example.cpp: the bytes on their way to the listener's side and back.
use yaaf.Common.{
  ◌≡◌, ◌≢◌, refl, ◌∙◌, true, false, none, some, [], ◌∷◌, ◌++◌, Str, ◌==◌, nat_eq, str_eq, lookup,
  arith, List,
}
use yaaf.Common.Outcomes.{ok}
use yaaf.Address.{IdT, Address, null_name}
use yaaf.Payload.{Envelope, payload_of}
use yaaf.Payload.Typed.{Messages, cast-pack_value}
use yaaf.Mailbox.{Mailbox}
use yaaf.Actor.{UserContext}
use yaaf.Context.State.{
  Context, Program, Description, BoxPtr, Event, action_handle, calls, calls_send, returns,
}
use yaaf.Context.Lookup.{get_address}
use yaaf.Context.Exchanges.Topics.{send_envelope_lem}
use yaaf.Context.User.{run_method, run_call, finished, caught, user_get_address}
use yaaf.Context.Registry.{IsRegistry}
use yaaf.Network.Values.{
  NetworkLib, NetworkActorMessage, ListenerActorMessage, ConnectionStatusMessage,
  network_actor_message, listener_actor_message, connection_status_message, network_types, Held,
}
use yaaf.Network.Arrival.{user_send_envelope_lem}
use yaaf.Examples.Echo.{
  tst_net_data, connection_name, listener_name, link_name, connection_actor, listener_actor,
  accumulate, payload_with, with_value, listener_action_handle, connection_action_handle,
  initiator_action_handle, send_data, added_to, listener_sum, connection_sum,
}

-- A name, its actor and the actor's mailbox.
pub record Found {H : Type 0} (name : Str) (d : Description) (b : BoxPtr) (s : Context H)
    : Type 0 where
  pub id : IdT
  pub leads : lookup name s.id_by_name ≡ some id
  pub live : lookup id s.actors ≡ some d
  pub there : lookup id s.mboxes ≡ some b

pub Found-get_address :
    {H : Type 0} (name : Str) (d : Description) (b : BoxPtr) (s : Context H)
    → IsRegistry s
    → Found name d b s
    → (get_address name s ≡ d.address)
      × (d.address.pathname ≡ name)
      × (lookup d.address.id s.mboxes ≡ some b)
unfolding get_address
Found-get_address name d b s v f =
    let (id_is, path) = v.addressed f.id d f.live in
    (rw (f.leads, f.live), path ∙ (v.named name f.id f.leads).1 d f.live, rw id_is f.there)

module _ (lib : NetworkLib) (texts : Messages) (p : Program (Held lib)) where
  -- The context `t` is `s` with `e` put last into the mailbox `b`.
  pub record Put (b : BoxPtr) (e : Envelope (Held lib)) (s t : Context (Held lib)) : Type 0 where
    pub boxes : BoxPtr → Mailbox (Held lib)
    pub same : t ≡ record s { boxes = boxes }
    pub last : (boxes b).dqueue ≡ (s.boxes b).dqueue ++ e ∷ []
    pub others : (c : BoxPtr) → c ≢ b → boxes c ≡ s.boxes c

  -- A method that sends one value, and returns.
  send_lem :
      (uc : UserContext) (addr : Address) (v : Held lib) (b : BoxPtr) (s : Context (Held lib))
      → s.stopping_begin ≡ false
      → (addr.pathname == null_name) ≡ false
      → (uc.addr.pathname == null_name) ≡ false
      → lookup addr.id s.mboxes ≡ some b
      → (t : Context (Held lib)) × (run_method p true uc
            (calls (calls_send addr (payload_of v)) (λ ans. returns))
            s
          ≡ ok (t, none))
        × Put b (record { payload = payload_of v; sender = uc.addr }) s t
  unfolding run_method run_call finished caught
  send_lem uc addr v b s running named signed_by there =
      let e : Envelope (Held lib) = record { payload = payload_of v; sender = uc.addr } in
      let (boxes, sent, last, others) = send_envelope_lem p addr e s b refl named signed_by there in
      (
        record s { boxes = boxes },
        rw (user_send_envelope_lem lib texts p uc addr v s running, sent) refl,
        record { boxes = boxes; same = refl; last = last; others = others },
      )

  -- The listener's actor gives the bytes back to whoever sent them, and its sum grows by them.
  pub listener_lem :
      (uc : UserContext) (lm : ListenerActorMessage) (sender : Address) (b : BoxPtr)
      (s : Context (Held lib)) (before : List (Event (Held lib)))
      → s.stopping_begin ≡ false
      → (sender.pathname == null_name) ≡ false
      → (uc.addr.pathname == null_name) ≡ false
      → lookup sender.id s.mboxes ≡ some b
      → (t : Context (Held lib)) × (run_method p true uc
            (listener_action_handle lib texts (record {
              payload = payload_with lib texts listener_actor_message lm;
              sender = sender;
            }))
            s
          ≡ ok (t, none))
        × Put b
            (record {
              payload = payload_with lib texts listener_actor_message (record {
                sender_id = lm.sender_id;
                name = connection_name;
                data_bytes = lm.data_bytes;
              });
              sender = uc.addr;
            })
            s
            t
        × (listener_sum lib texts (
              action_handle listener_actor (record {
                payload = payload_with lib texts listener_actor_message lm;
                sender = sender;
              })
              ∷ before)
            ≡ accumulate lm.data_bytes (listener_sum lib texts before))
  unfolding listener_action_handle with_value listener_sum added_to
  listener_lem uc lm sender b s before running named signed_by there =
      let nm : NetworkActorMessage = record { name = []; data_bytes = [] } in
      let opened =
        (cast-pack_value (network_types lib) texts network_actor_message listener_actor_message nm
          lm (λ e. absurd (ground arith))).0 in
      let answer : ListenerActorMessage = record {
        sender_id = lm.sender_id;
        name = connection_name;
        data_bytes = lm.data_bytes;
      } in
      let (t, run, put) =
        send_lem uc sender (record { tag = listener_actor_message; value = answer }) b s running
          named signed_by there in
      (t, rw opened run, put, rw opened refl)

  -- The connection's actor calls nothing, and its sum grows by the bytes.
  pub connection_lem :
      (uc : UserContext) (nm : NetworkActorMessage) (sender : Address) (s : Context (Held lib))
      (before : List (Event (Held lib)))
      → (run_method p true uc
            (connection_action_handle lib texts (record {
              payload = payload_with lib texts network_actor_message nm;
              sender = sender;
            }))
            s
          ≡ ok (s, none))
        × (connection_sum lib texts (
              action_handle connection_actor (record {
                payload = payload_with lib texts network_actor_message nm;
                sender = sender;
              })
              ∷ before)
            ≡ accumulate nm.data_bytes (connection_sum lib texts before))
  unfolding connection_action_handle with_value connection_sum added_to run_method
  connection_lem uc nm sender s before =
      let lm : ListenerActorMessage = record { sender_id = 0; name = []; data_bytes = [] } in
      let opened =
        (cast-pack_value (network_types lib) texts listener_actor_message network_actor_message lm
          nm (λ e. absurd (ground arith))).0 in
      (rw opened refl, rw opened refl)

  -- The initiator, once it is told of a connection, sends the bytes to the actor of the link.
  pub initiator_lem :
      (uc : UserContext) (status : ConnectionStatusMessage) (sender : Address) (d : Description)
      (b : BoxPtr) (s : Context (Held lib))
      → status.is_connected ≡ true
      → IsRegistry s
      → s.stopping_begin ≡ false
      → (uc.addr.pathname == null_name) ≡ false
      → Found link_name d b s
      → (t : Context (Held lib)) × (run_method p true uc
            (initiator_action_handle lib texts (record {
              payload = payload_with lib texts connection_status_message status;
              sender = sender;
            }))
            s
          ≡ ok (t, none))
        × Put b
            (record {
              payload =
                  payload_with lib texts network_actor_message
                    (record { name = listener_name; data_bytes = tst_net_data });
              sender = uc.addr;
            })
            s
            t
  unfolding initiator_action_handle with_value run_method run_call caught user_get_address send_data
  initiator_lem uc status sender d b s connected v running signed_by f =
      let nm : NetworkActorMessage = record { name = listener_name; data_bytes = tst_net_data } in
      let opened =
        (cast-pack_value (network_types lib) texts network_actor_message connection_status_message
          nm status (λ e. absurd (ground arith))).0 in
      let (leads, path, there) = Found-get_address link_name d b s v f in
      let (t, run, put) =
        send_lem uc d.address (record { tag = network_actor_message; value = nm }) b s running
          (rw path refl) signed_by there in
      (t, rw (opened, connected, leads) run, put)
