-- ===== src/Examples/Echo/Return.antt =====
-- examples/network_example.cpp: from the status of the connection to the sums for which `main` waits.
use yaaf.Common.{[], ℕ, ◌<◌, ◌≡◌, refl, true, Bool, none, ◌∷◌, Str, nat_eq, str_eq, arith, List}
use yaaf.Common.Outcomes.{ok}
use yaaf.Address.{Address}
use yaaf.Payload.{Envelope}
use yaaf.Payload.Typed.{Messages}
use yaaf.Actor.{UserContext}
use yaaf.Context.State.{Context, Program, Description, BoxPtr, Event, action_handle}
use yaaf.Context.User.{run_method}
use yaaf.Network.{Message}
use yaaf.Network.Values.{
  NetworkLib, connection_status_message, Held, NetworkContext, send_async, send_to,
}
use yaaf.Network.Actors.{
  NetworkLstActor, NetworkConActor, lst_action_handle, lst_on_new_message, con_action_handle,
  con_on_new_message,
}
use yaaf.Network.Arrival.{
  Got, lst_on_new_message-con_action_handle, con_on_new_message-lst_action_handle,
}
use yaaf.Examples.Echo.{
  initiator, tst_net_data, connection_name, listener_name, connection_actor, listener_actor,
  accumulate, payload_with, listener_sum, connection_sum, program,
}
use yaaf.Examples.Echo.Trip.{Put, listener_lem, connection_lem, initiator_lem}
use yaaf.Examples.Echo.Sides.{
  outgoing, arriving, answering, returning, IsListening, IsConnecting, out-Fits, back-Fits,
  out_room, back_room,
}

module _ (lib : NetworkLib) (texts : Messages) (double_checks : Bool) (text : Str) where
  abbrev actors : Program (Held lib)
  actors = program lib texts double_checks text

  -- What `on_connect` publishes.
  abbrev pub connected_to : Str → Address → Envelope (Held lib)
  connected_to host sender = record {
    payload =
        payload_with lib texts connection_status_message
          (record { host = host; errormsg = []; is_connected = true });
    sender = sender;
  }

  -- The way of the bytes. `con_net` and `lst_net` are the `user_context`s of the network's actors `con`
  -- and `lst`, `con_own` and `lst_own` those of the initiator and of the listener's actor.
  pub record Returns (con : NetworkConActor lib) (lst : NetworkLstActor) (client : ℕ)
      (con_net con_own lst_net lst_own : UserContext) (link_box con_box net_box lst_box : BoxPtr)
      (n_told n_returned n_reached n_answering : NetworkContext lib) : Type 0 where
    -- The initiator is told of a connection: its handler puts the bytes into the link's mailbox.
    pub told :
        (host : Str) (sender : Address) (events : List (Event (Held lib)))
        → (c : Context (Held lib)) × (run_method actors true con_own
              (actors.handles initiator events (connected_to host sender))
              n_told.context
            ≡ ok (c, none))
          × Put lib texts actors link_box (outgoing lib texts con_own) n_told.context c
    -- The link's handler gives libdialler a message, and on the other side it becomes mail of the
    -- listener's actor.
    pub carried :
        (n : NetworkContext lib)
        → (m : Message) × (con_action_handle lib texts actors true con
              (outgoing lib texts con_own)
              n
            ≡ ok (record n { library_calls = send_async con.con m ∷ n.library_calls }))
          × (t : NetworkContext lib) × (lst_on_new_message lib texts actors true lst client m
                n_reached
              ≡ ok t)
          × Got lib texts actors lst_box (arriving lib texts client lst_net) n_reached t
    -- The handler of this one adds the bytes to its sum, and puts an answer into the mailbox of the
    -- network's actor.
    pub answered :
        (events : List (Event (Held lib)))
        → (c : Context (Held lib)) × (run_method actors true lst_own
              (actors.handles listener_actor events (arriving lib texts client lst_net))
              n_answering.context
            ≡ ok (c, none))
          × Put lib texts actors net_box (answering lib texts client lst_own) n_answering.context c
          × (listener_sum lib texts
                (action_handle listener_actor (arriving lib texts client lst_net) ∷ events)
              ≡ accumulate tst_net_data (listener_sum lib texts events))
    -- The handler of this one gives libdialler a message for the client, and on the first side it
    -- becomes mail of the connection's actor.
    pub carried_back :
        (n : NetworkContext lib)
        → (m : Message) × (lst_action_handle lib texts actors true lst
              (answering lib texts client lst_own)
              n
            ≡ ok (record n { library_calls = send_to lst.self client m ∷ n.library_calls }))
          × (t : NetworkContext lib) × (con_on_new_message lib texts actors true con m n_returned
              ≡ ok t)
          × Got lib texts actors con_box (returning lib texts con_net) n_returned t
    -- The handler of this one calls nothing, and adds the bytes to its sum.
    pub summed :
        (uc : UserContext) (s : Context (Held lib)) (events : List (Event (Held lib)))
        → (run_method actors true uc
              (actors.handles connection_actor events (returning lib texts con_net))
              s
            ≡ ok (s, none))
          × (connection_sum lib texts
                (action_handle connection_actor (returning lib texts con_net) ∷ events)
              ≡ accumulate tst_net_data (connection_sum lib texts events))

  -- In the network example, if libdialler takes messages of 64 bytes: an initiator that is told of a
  -- connection sends the bytes to the link's actor; what this one gives to libdialler becomes, on the
  -- other side, mail of the listener's actor, which adds the bytes to its sum and answers; and what the
  -- network's actor there gives to libdialler becomes mail of the connection's actor, which adds the
  -- bytes to its sum. This is so whatever happens between these steps, if at the four that look up an
  -- actor the context is well formed, has not begun to stop, and has the actors under their names and
  -- with the same mailboxes, and no path name is "null".
  pub echo-Returns :
      (con : NetworkConActor lib) (lst : NetworkLstActor) (client : ℕ)
      (con_net con_own lst_net lst_own : UserContext) (link d_con d_lst : Description)
      (link_box con_box net_box lst_box : BoxPtr)
      (n_told n_returned n_reached n_answering : NetworkContext lib)
      → 64 < lib.messages.size_limit
      → IsConnecting lib texts con con_net con_own link link_box d_con con_box n_told
      → IsListening lib texts lst lst_net lst_own net_box lst_box d_lst n_reached
      → IsListening lib texts lst lst_net lst_own net_box lst_box d_lst n_answering
      → IsConnecting lib texts con con_net con_own link link_box d_con con_box n_returned
      → Returns con lst client con_net con_own lst_net lst_own link_box con_box net_box lst_box
          n_told n_returned n_reached n_answering
  echo-Returns con lst client con_net con_own lst_net lst_own link d_con d_lst link_box con_box
        net_box lst_box n_told n_returned n_reached n_answering room first reached answer back =
      record {
        told = λ host sender events.
            initiator_lem lib texts actors con_own
              (record { host = host; errormsg = []; is_connected = true }) sender link link_box
              n_told.context refl first.registry first.running first.own_named first.linked;
        carried = λ n.
            lst_on_new_message-con_action_handle lib texts actors actors con con_own.addr
              (record { name = listener_name; data_bytes = tst_net_data }) n lst client lst_net
              reached.found.id d_lst lst_box n_reached (out-Fits lib texts)
              (omega (arith, out_room lib texts, room)) reached.has reached.registry reached.running
              reached.net_named refl reached.found.leads reached.found.live reached.found.there;
        answered = λ events.
            listener_lem lib texts actors lst_own
              (record { sender_id = client; name = listener_name; data_bytes = tst_net_data })
              lst_net.addr net_box n_answering.context events answer.running answer.net_named
              answer.own_named answer.net_there;
        carried_back = λ n.
            con_on_new_message-lst_action_handle lib texts actors actors lst lst_own.addr
              (record { sender_id = client; name = connection_name; data_bytes = tst_net_data }) n
              con con_net back.found.id d_con con_box n_returned (back-Fits lib texts)
              (omega (arith, back_room lib texts, room)) back.has back.registry back.running
              back.net_named refl back.found.leads back.found.live back.found.there;
        summed = λ uc s events.
            connection_lem lib texts actors uc
              (record { name = connection_name; data_bytes = tst_net_data }) con_net.addr s events;
      }
