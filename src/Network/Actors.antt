-- ===== src/Network/Actors.antt =====
-- libyaaf/context_network.cpp: `network_lst_actor`, `network_con_actor` and `network_supervisor_actor`.
-- `alive` tells whether the context of an actor's `user_context` can still be locked.
use yaaf.Common.{ℕ, Bool, true, false, not, if◌then◌else◌, Option, none, some, [], ◌∷◌, ◌++◌, Str}
use yaaf.Common.Outcomes.{Outcome, ok, null_deref, ◌>>=◌}
use yaaf.Address.{address_empty}
use yaaf.Payload.{Envelope, Payload}
use yaaf.Payload.Typed.{Messages, pack_value, cast, is}
use yaaf.Actor.{UserContext, on_stop}
use yaaf.Context.State.{Context, Program, ActorPtr, update}
use yaaf.Context.User.{wrapped, user_send_envelope, user_get_address, user_publish_to_exchange}
use yaaf.Network.{
  MessageKinds, kind_ok, login, login_confirm, login_failed, msg, Message, Query, packed,
  get_message, from_message,
}
use yaaf.Network.Values.{
  NetworkLib, NetworkActorMessage, ConnectionStatusMessage, NetworkTag, NetworkVal,
  network_actor_message, listener_actor_message, connection_status_message, listener_params,
  dial_params, network_types, Held, ListenerPtr, DialPtr, send_async, send_to, NetworkContext,
}
use yaaf.Network.Links.{
  net_prefix, target_host_of, add_listener_on, add_connection_to, erase_listener_on,
  erase_connections,
}

-- The fields of `network_lst_actor`, with the pointer to the actor itself.
pub record NetworkLstActor : Type 0 where
  pub self : ActorPtr
  pub port : ℕ

unfoldable pub is_msg : MessageKinds → Bool
is_msg msg = true
is_msg kind_ok = false
is_msg login = false
is_msg login_confirm = false
is_msg login_failed = false

-- A write behind the end of a message is undefined, like a read through a null pointer.
unfoldable pub sent_message : Option Message → Outcome Message
sent_message none = null_deref
sent_message (some m) = ok m

-- The same for a read.
unfoldable pub read_message : Option Query → Outcome NetworkActorMessage
read_message (some (packed name bytes)) = ok (record { name = name; data_bytes = bytes })
read_message other = null_deref

module _ (lib : NetworkLib) where
  -- The fields of `network_con_actor`, with the pointer to the actor itself.
  pub record NetworkConActor : Type 0 where
    pub self : ActorPtr
    pub con : DialPtr
    pub cp : lib.DialParams
    pub target_host : Str

module _ (lib : NetworkLib) (texts : Messages) (program : Program (Held lib)) (alive : Bool) where
  -- `packed_message<network_actor_message>::get_message`.
  unfoldable pub packed_for : NetworkActorMessage → Outcome Message
  unfolding sent_message get_message
  packed_for nam = sent_message (get_message lib.messages (packed nam.name nam.data_bytes))

  unfoldable pub unpacked : Message → Outcome NetworkActorMessage
  unfolding read_message from_message
  unpacked d = read_message (from_message d)

  abbrev payload_with : (t : NetworkTag) → NetworkVal lib t → Payload (Held lib)
  payload_with t v = pack_value (network_types lib) texts t v

  -- A method of `abstract_context` that changes the context.
  unfoldable pub on_context :
      NetworkContext lib → Outcome (Context (Held lib)) → Outcome (NetworkContext lib)
  on_context n r = r >>= λ c. ok (record n { context = c })

  -- `ctx->get_address(name)`, then `ctx->send`, if the address is not empty.
  unfoldable pub send_by_name :
      Option UserContext
      → Str
      → Payload (Held lib)
      → NetworkContext lib
      → Outcome (NetworkContext lib)
  unfolding user_get_address address_empty user_send_envelope wrapped on_context
  send_by_name none name p n = ok n
  send_by_name (some uc) name p n =
      let addr = user_get_address program alive uc name n.context in
      if not (address_empty addr)
      then on_context n
          (user_send_envelope program alive uc addr (wrapped program alive uc p) n.context)
      else ok n

  unfoldable pub lst_action_handle :
      NetworkLstActor → Envelope (Held lib) → NetworkContext lib → Outcome (NetworkContext lib)
  unfolding cast packed_for
  lst_action_handle a e n =
      cast (network_types lib) texts listener_actor_message e.payload >>= λ lm.
      packed_for (record { name = lm.name; data_bytes = lm.data_bytes }) >>= λ msg_ptr.
      ok (record n { library_calls = send_to a.self lm.sender_id msg_ptr ∷ n.library_calls })

  -- `on_new_message` of a listener; `i` is the client's id.
  unfoldable pub lst_on_new_message :
      NetworkLstActor → ℕ → Message → NetworkContext lib → Outcome (NetworkContext lib)
  unfolding is_msg unpacked send_by_name
  lst_on_new_message a i d n =
      if is_msg d.kind
      then unpacked d >>= (λ nm.
        send_by_name (n.context.objects a.self).ctx nm.name
          (payload_with listener_actor_message
            (record { sender_id = i; name = nm.name; data_bytes = nm.data_bytes }))
          n)
      else ok n

  -- `base_actor::on_stop` of the actor itself.
  base_on_stop : ActorPtr → NetworkContext lib → NetworkContext lib
  unfolding on_stop
  base_on_stop a n = record n {
    context = record n.context {
      objects = update n.context.objects a (on_stop (n.context.objects a));
    };
  }

  unfoldable pub lst_on_stop : NetworkLstActor → NetworkContext lib → NetworkContext lib
  unfolding base_on_stop erase_listener_on
  lst_on_stop a n = base_on_stop a.self (erase_listener_on lib program a.port n)

  -- The constructor.
  unfoldable pub network_con_actor : ActorPtr → DialPtr → lib.DialParams → NetworkConActor lib
  unfolding target_host_of
  network_con_actor self con cp = record {
    self = self;
    con = con;
    cp = cp;
    target_host = target_host_of lib program cp;
  }

  unfoldable pub con_on_stop : NetworkConActor lib → NetworkContext lib → NetworkContext lib
  unfolding base_on_stop erase_connections
  con_on_stop a n = base_on_stop a.self (erase_connections lib program a.cp n)

  unfoldable pub con_action_handle :
      NetworkConActor lib → Envelope (Held lib) → NetworkContext lib → Outcome (NetworkContext lib)
  unfolding cast packed_for
  con_action_handle a e n = cast (network_types lib) texts network_actor_message e.payload >>= λ nm.
      packed_for nm >>= λ msg_ptr.
      ok (record n { library_calls = send_async a.con msg_ptr ∷ n.library_calls })

  unfoldable pub con_on_new_message :
      NetworkConActor lib → Message → NetworkContext lib → Outcome (NetworkContext lib)
  unfolding is_msg unpacked send_by_name
  con_on_new_message a d n =
      if is_msg d.kind
      then unpacked d >>= (λ nm.
        send_by_name (n.context.objects a.self).ctx nm.name (payload_with network_actor_message nm)
          n)
      else ok n

  publish_status :
      Option UserContext
      → Str
      → ConnectionStatusMessage
      → NetworkContext lib
      → Outcome (NetworkContext lib)
  unfolding user_publish_to_exchange wrapped on_context
  publish_status none host sm n = ok n
  publish_status (some uc) host sm n = on_context n (
      user_publish_to_exchange program alive uc (net_prefix ++ host)
        (wrapped program alive uc (payload_with connection_status_message sm)) n.context)

  unfoldable pub send_status :
      NetworkConActor lib
      → ConnectionStatusMessage
      → NetworkContext lib
      → Outcome (NetworkContext lib)
  unfolding publish_status
  send_status a sm n = publish_status (n.context.objects a.self).ctx a.target_host sm n

  unfoldable pub on_connect :
      NetworkConActor lib → NetworkContext lib → Outcome (NetworkContext lib)
  unfolding send_status
  on_connect a n =
      send_status a (record { host = a.target_host; errormsg = []; is_connected = true }) n

  -- `err` is the text of the error.
  unfoldable pub con_on_network_error :
      NetworkConActor lib → Str → NetworkContext lib → Outcome (NetworkContext lib)
  unfolding send_status
  con_on_network_error a err n =
      send_status a (record { host = a.target_host; errormsg = err; is_connected = false }) n

  -- `network_supervisor_actor::action_handle`. `l`, `la`, `c` and `ca` are the objects that are made
  -- for a listener or for a connection.
  unfoldable pub supervisor_action_handle :
      ListenerPtr
      → ActorPtr
      → DialPtr
      → ActorPtr
      → Envelope (Held lib)
      → NetworkContext lib
      → Outcome (NetworkContext lib)
  unfolding is cast add_listener_on add_connection_to
  supervisor_action_handle l la c ca e n =
      let types = network_types lib in
      is types texts program.double_checks listener_params e.payload >>= λ for_listener.
      (if for_listener
        then (cast types texts listener_params e.payload >>= λ lp.
            add_listener_on lib program lp l la n)
        else ok n)
      >>= λ n1. is types texts program.double_checks dial_params e.payload >>= λ for_dial.
          if for_dial
          then (cast types texts dial_params e.payload >>= λ cp.
              add_connection_to lib program cp c ca n1)
          else ok n1
