-- ===== src/Examples/Echo/Sides.antt =====
-- examples/network_example.cpp: the envelopes on their way, and the two sides that they pass.
use yaaf.Common.{ℕ, ◌<◌, ◌≡◌, false, some, ◌==◌, nat_eq, str_eq, lookup, arith, All}
use yaaf.Address.{null_name}
use yaaf.Payload.{Envelope}
use yaaf.Payload.Typed.{Messages}
use yaaf.Actor.{UserContext}
use yaaf.Serialization.{capacity, calculate_args_size, size}
use yaaf.Serialization.RoundTrip.{Fits}
use yaaf.Context.State.{Description, BoxPtr}
use yaaf.Context.Registry.{IsRegistry}
use yaaf.Network.{packed, fields}
use yaaf.Network.Values.{
  NetworkLib, network_actor_message, listener_actor_message, Held, NetworkContext,
}
use yaaf.Network.Actors.{NetworkLstActor, NetworkConActor}
use yaaf.Examples.Echo.{tst_net_data, connection_name, listener_name, link_name, payload_with}
use yaaf.Examples.Echo.Trip.{Found}

module _ (lib : NetworkLib) (texts : Messages) where
  -- What the initiator sends, what reaches the listener's actor, its answer, and what comes back.
  abbrev pub outgoing : UserContext → Envelope (Held lib)
  outgoing uc = record {
    payload =
        payload_with lib texts network_actor_message
          (record { name = listener_name; data_bytes = tst_net_data });
    sender = uc.addr;
  }

  abbrev pub arriving : ℕ → UserContext → Envelope (Held lib)
  arriving client uc = record {
    payload =
        payload_with lib texts listener_actor_message
          (record { sender_id = client; name = listener_name; data_bytes = tst_net_data });
    sender = uc.addr;
  }

  abbrev pub answering : ℕ → UserContext → Envelope (Held lib)
  answering client uc = record {
    payload =
        payload_with lib texts listener_actor_message
          (record { sender_id = client; name = connection_name; data_bytes = tst_net_data });
    sender = uc.addr;
  }

  abbrev pub returning : UserContext → Envelope (Held lib)
  returning uc = record {
    payload =
        payload_with lib texts network_actor_message
          (record { name = connection_name; data_bytes = tst_net_data });
    sender = uc.addr;
  }

  -- The listener's side: the network's actor with its `user_context` and mailbox, and the actor that
  -- answers, with its own.
  pub record IsListening (lst : NetworkLstActor) (net own : UserContext) (net_box box : BoxPtr)
      (d : Description) (n : NetworkContext lib) : Type 0 where
    pub registry : IsRegistry n.context
    pub running : n.context.stopping_begin ≡ false
    pub has : (n.context.objects lst.self).ctx ≡ some net
    pub net_named : (net.addr.pathname == null_name) ≡ false
    pub own_named : (own.addr.pathname == null_name) ≡ false
    pub net_there : lookup net.addr.id n.context.mboxes ≡ some net_box
    pub found : Found listener_name d box n.context

  -- The connection's side: the network's actor with its mailbox, the initiator's `user_context`, and
  -- the actor that gets the answer.
  pub record IsConnecting (con : NetworkConActor lib) (net own : UserContext) (link : Description)
      (link_box : BoxPtr) (d : Description) (box : BoxPtr) (n : NetworkContext lib) : Type 0 where
    pub registry : IsRegistry n.context
    pub running : n.context.stopping_begin ≡ false
    pub has : (n.context.objects con.self).ctx ≡ some net
    pub net_named : (net.addr.pathname == null_name) ≡ false
    pub own_named : (own.addr.pathname == null_name) ≡ false
    pub linked : Found link_name link link_box n.context
    pub found : Found connection_name d box n.context

  pub out-Fits : All Fits (fields (packed listener_name tst_net_data))
  unfolding fields
  out-Fits = (omega arith, (omega arith, tt))

  pub back-Fits : All Fits (fields (packed connection_name tst_net_data))
  unfolding fields
  back-Fits = (omega arith, (omega arith, tt))

  pub out_room : capacity (fields (packed listener_name tst_net_data)) < 64
  unfolding fields capacity calculate_args_size size
  out_room = omega arith

  pub back_room : capacity (fields (packed connection_name tst_net_data)) < 64
  unfolding fields capacity calculate_args_size size
  back_room = omega arith
