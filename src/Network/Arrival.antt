-- ===== src/Network/Arrival.antt =====
-- libyaaf/context_network.cpp: a message on its way between actors of two contexts.
use yaaf.Common.{
  ℕ, ◌<◌, ◌≡◌, ◌≢◌, refl, ◌∙◌, ap, true, false, some, [], ◌∷◌, ◌++◌, Str, ◌==◌, nat_eq, str_eq,
  lookup, All, arith, if◌then◌else◌, not,
}
use yaaf.Common.Outcomes.{ok}
use yaaf.Address.{IdT, Address, null_name, address_empty}
use yaaf.Payload.{Envelope, payload_of, copy}
use yaaf.Payload.Typed.{Messages, pack_value, cast-pack_value}
use yaaf.Mailbox.{Mailbox}
use yaaf.Actor.{UserContext}
use yaaf.Serialization.{capacity}
use yaaf.Serialization.RoundTrip.{Fits}
use yaaf.Context.State.{Context, Program, Description, BoxPtr}
use yaaf.Context.Lookup.{get_address}
use yaaf.Context.Send.{send_envelope}
use yaaf.Context.Exchanges.Topics.{send_envelope_lem}
use yaaf.Context.User.{wrapped, signed, user_send_envelope, user_get_address}
use yaaf.Context.Registry.{IsRegistry}
use yaaf.Network.{Message, msg, packed, fields, kind_of}
use yaaf.Network.Laws.{from_message-get_message}
use yaaf.Network.Values.{
  NetworkLib, NetworkActorMessage, ListenerActorMessage, network_actor_message,
  listener_actor_message, network_types, Held, send_async, send_to, NetworkContext,
}
use yaaf.Network.Actors.{
  NetworkLstActor, NetworkConActor, is_msg, sent_message, read_message, packed_for, unpacked,
  send_by_name, on_context, lst_action_handle, lst_on_new_message, con_action_handle,
  con_on_new_message,
}

module _ (lib : NetworkLib) (texts : Messages) (program : Program (Held lib)) where
  -- The mailbox `b` has got one more envelope, and nothing else has changed.
  pub record Got (b : BoxPtr) (e : Envelope (Held lib)) (n m : NetworkContext lib) : Type 0 where
    pub boxes : BoxPtr → Mailbox (Held lib)
    pub same : m ≡ record n { context = record n.context { boxes = boxes } }
    pub last : (boxes b).dqueue ≡ (n.context.boxes b).dqueue ++ e ∷ []
    pub others : (c : BoxPtr) → c ≢ b → boxes c ≡ n.context.boxes c

  -- A `user_context` passes a value on in its actor's name while the context has not begun to stop.
  pub user_send_envelope_lem :
      (uc : UserContext) (addr : Address) (v : Held lib) (s : Context (Held lib))
      → s.stopping_begin ≡ false
      → user_send_envelope program true uc addr (wrapped program true uc (payload_of v)) s
        ≡ send_envelope program addr (record { payload = payload_of v; sender = uc.addr }) s
  unfolding user_send_envelope signed wrapped copy
  user_send_envelope_lem uc addr v s running =
      let e : Envelope (Held lib) = record { payload = payload_of v; sender = uc.addr } in
      ap (λ stops. if not stops then send_envelope program addr e s else ok s) running

  send_by_name_lem :
      (uc : UserContext) (name : Str) (v : Held lib) (i : IdT) (d : Description) (b : BoxPtr)
      (n : NetworkContext lib)
      → IsRegistry n.context
      → n.context.stopping_begin ≡ false
      → (uc.addr.pathname == null_name) ≡ false
      → (name == null_name) ≡ false
      → lookup name n.context.id_by_name ≡ some i
      → lookup i n.context.actors ≡ some d
      → lookup i n.context.mboxes ≡ some b
      → (m : NetworkContext lib) × (send_by_name lib texts program true
            (some uc)
            name
            (payload_of v)
            n
          ≡ ok m)
        × Got b (record { payload = payload_of v; sender = uc.addr }) n m
  unfolding send_by_name on_context user_get_address get_address address_empty
  send_by_name_lem uc name v i d b n r running signed_by named leads live there =
      let (id_is, path) = r.addressed i d live in
      let e : Envelope (Held lib) = record { payload = payload_of v; sender = uc.addr } in
      let path_is : d.address.pathname ≡ name = path ∙ (r.named name i leads).1 d live in
      let found : get_address name n.context ≡ d.address = rw (leads, live) in
      let full : address_empty d.address ≡ false = ground (arith, id_is, r.positive i d live) in
      let (boxes, sent, last, others) =
        send_envelope_lem program d.address e n.context b refl (rw path_is named) signed_by
          (rw id_is there) in
      (
        record n { context = record n.context { boxes = boxes } },
        rw (found, full, user_send_envelope_lem uc d.address v n.context running, sent),
        record { boxes = boxes; same = refl; last = last; others = others },
      )

  packed_for-unpacked :
      (other : Program (Held lib)) (nm : NetworkActorMessage)
      → All Fits (fields (packed nm.name nm.data_bytes))
      → capacity (fields (packed nm.name nm.data_bytes)) < lib.messages.size_limit
      → (m : Message) × (packed_for lib texts other true nm ≡ ok m)
        × (m.kind ≡ msg)
        × (unpacked lib texts program true m ≡ ok nm)
  unfolding packed_for unpacked sent_message read_message kind_of
  packed_for-unpacked other nm fits small =
      let (m, made, kind, _, read) =
        from_message-get_message lib.messages (packed nm.name nm.data_bytes) fits small in
      (m, rw made, kind, rw read)

  -- `con_action_handle` of a message that fits, in any context, gives libdialler a message of the
  -- network; `lst_on_new_message` of that message on a well-formed context that has not begun to
  -- stop puts the name and the bytes, with the client's id and in the listener's name, last in the
  -- mailbox of the registered actor that the name leads to, and changes nothing else, if the
  -- listener's actor has a context and neither it nor the target has the path name "null".
  pub lst_on_new_message-con_action_handle :
      (other : Program (Held lib)) (con : NetworkConActor lib) (sender : Address)
      (nm : NetworkActorMessage) (from : NetworkContext lib) (lst : NetworkLstActor) (client : ℕ)
      (uc : UserContext) (i : IdT) (d : Description) (b : BoxPtr) (n : NetworkContext lib)
      → All Fits (fields (packed nm.name nm.data_bytes))
      → capacity (fields (packed nm.name nm.data_bytes)) < lib.messages.size_limit
      → (n.context.objects lst.self).ctx ≡ some uc
      → IsRegistry n.context
      → n.context.stopping_begin ≡ false
      → (uc.addr.pathname == null_name) ≡ false
      → (nm.name == null_name) ≡ false
      → lookup nm.name n.context.id_by_name ≡ some i
      → lookup i n.context.actors ≡ some d
      → lookup i n.context.mboxes ≡ some b
      → (m : Message) × (con_action_handle lib texts other true con
            (record {
              payload = pack_value (network_types lib) texts network_actor_message nm;
              sender = sender;
            })
            from
          ≡ ok (record from { library_calls = send_async con.con m ∷ from.library_calls }))
        × (n' : NetworkContext lib) × (lst_on_new_message lib texts program true lst client m n
            ≡ ok n')
        × Got b
            (record {
              payload =
                  pack_value
                    (network_types lib)
                    texts
                    listener_actor_message
                    (record { sender_id = client; name = nm.name; data_bytes = nm.data_bytes });
              sender = uc.addr;
            })
            n
            n'
  unfolding con_action_handle lst_on_new_message is_msg
  lst_on_new_message-con_action_handle other con sender nm from lst client uc i d b n fits small has
        r running signed_by named leads live there =
      let (m, made, kind, read) = packed_for-unpacked other nm fits small in
      let lm : ListenerActorMessage = record {
        sender_id = client;
        name = nm.name;
        data_bytes = nm.data_bytes;
      } in
      let is : is_msg m.kind ≡ true = ap is_msg kind in
      let opened =
        (cast-pack_value (network_types lib) texts listener_actor_message network_actor_message lm
          nm (λ e. absurd (ground arith))).0 in
      let (n', arrived, got) =
        send_by_name_lem uc nm.name (record { tag = listener_actor_message; value = lm }) i d b n r
          running signed_by named leads live there in
      (m, rw (opened, made), n', rw (is, read, has, arrived), got)

  -- The way back: `lst_action_handle` of an answer that fits has the client's id as its target, and
  -- `con_on_new_message` of the message on a well-formed context that has not begun to stop puts
  -- name and bytes, in the connection's name, last in the mailbox of the registered actor that the
  -- name leads to, and changes nothing else, if the connection's actor has a context and neither it
  -- nor the target has the path name "null".
  pub con_on_new_message-lst_action_handle :
      (other : Program (Held lib)) (lst : NetworkLstActor) (sender : Address)
      (lm : ListenerActorMessage) (from : NetworkContext lib) (con : NetworkConActor lib)
      (uc : UserContext) (i : IdT) (d : Description) (b : BoxPtr) (n : NetworkContext lib)
      → All Fits (fields (packed lm.name lm.data_bytes))
      → capacity (fields (packed lm.name lm.data_bytes)) < lib.messages.size_limit
      → (n.context.objects con.self).ctx ≡ some uc
      → IsRegistry n.context
      → n.context.stopping_begin ≡ false
      → (uc.addr.pathname == null_name) ≡ false
      → (lm.name == null_name) ≡ false
      → lookup lm.name n.context.id_by_name ≡ some i
      → lookup i n.context.actors ≡ some d
      → lookup i n.context.mboxes ≡ some b
      → (m : Message) × (lst_action_handle lib texts other true lst
            (record {
              payload = pack_value (network_types lib) texts listener_actor_message lm;
              sender = sender;
            })
            from
          ≡ ok (record from {
            library_calls = send_to lst.self lm.sender_id m ∷ from.library_calls;
          }))
        × (n' : NetworkContext lib) × (con_on_new_message lib texts program true con m n ≡ ok n')
        × Got b
            (record {
              payload =
                  pack_value
                    (network_types lib)
                    texts
                    network_actor_message
                    (record { name = lm.name; data_bytes = lm.data_bytes });
              sender = uc.addr;
            })
            n
            n'
  unfolding con_on_new_message lst_action_handle is_msg
  con_on_new_message-lst_action_handle other lst sender lm from con uc i d b n fits small has r
        running signed_by named leads live there =
      let nm : NetworkActorMessage = record { name = lm.name; data_bytes = lm.data_bytes } in
      let (m, made, kind, read) = packed_for-unpacked other nm fits small in
      let is : is_msg m.kind ≡ true = ap is_msg kind in
      let opened =
        (cast-pack_value (network_types lib) texts network_actor_message listener_actor_message nm
          lm (λ e. absurd (ground arith))).0 in
      let (n', arrived, got) =
        send_by_name_lem uc lm.name (record { tag = network_actor_message; value = nm }) i d b n r
          running signed_by named leads live there in
      (m, rw (opened, made), n', rw (is, read, has, arrived), got)
