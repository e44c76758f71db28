-- ===== src/Network/Values.antt =====
-- libyaaf/context_network.h: the messages of the network's actors, and what the context keeps of the
-- network. libdialler's listeners, dials and their parameters are arguments; the calls that are made of
-- them are recorded.
use native.Mathlib.Decide.{ℕ_discrete}
use yaaf.Common.{ℕ, Bool, List, Str, Eq}
use yaaf.Address.{Address}
use yaaf.Payload.Typed.{Types, Holder}
use yaaf.Context.State.{Context, ActorPtr}
use yaaf.Network.{Message, Dialler}

pub record NetworkActorMessage : Type 0 where
  pub name : Str
  pub data_bytes : List ℕ

pub record ListenerActorMessage : Type 0 where
  pub sender_id : ℕ
  pub name : Str
  pub data_bytes : List ℕ

pub record ConnectionStatusMessage : Type 0 where
  pub host : Str
  pub errormsg : Str
  pub is_connected : Bool

-- What is used of libdialler: its messages, `listener::params_t` and `dial::params_t`, with the equality
-- by which the latter are keys. `Value` are the values that other actors send, by their types' tags.
pub record NetworkLib : Type 1 where
  pub messages : Dialler
  pub ListenerParams : Type 0
  pub listener_port : ListenerParams → ℕ
  pub DialParams : Type 0
  pub host : DialParams → Str
  pub port : DialParams → ℕ
  pub same_params : Eq DialParams
  pub Value : ℕ → Type 0

pub data NetworkTag : Type 0 where
  network_actor_message listener_actor_message connection_status_message : NetworkTag
  listener_params dial_params : NetworkTag
  other_type : ℕ → NetworkTag

pub NetworkTag-discrete : Discrete NetworkTag
NetworkTag-discrete = hlevel ℕ_discrete

-- A pointer to a `dialler::listener`, one to a `dialler::dial`, and the id of a listener's client.
abbrev pub ListenerPtr : Type 0
ListenerPtr = ℕ

abbrev pub DialPtr : Type 0
DialPtr = ℕ

-- The calls of libdialler.
pub data LibraryCall : Type 0 where
  send_async : DialPtr → Message → LibraryCall
  -- `send_to` of the consumer that an actor is.
  send_to : ActorPtr → ℕ → Message → LibraryCall
  dial_add_consumer listener_add_consumer : ℕ → ActorPtr → LibraryCall
  start_async_connection disconnect dial_wait_stoping : DialPtr → LibraryCall
  listener_start wait_starting listener_stop listener_wait_stoping : ListenerPtr → LibraryCall

module _ (lib : NetworkLib) where
  abbrev pub NetworkVal : NetworkTag → Type 0
  NetworkVal network_actor_message = NetworkActorMessage
  NetworkVal listener_actor_message = ListenerActorMessage
  NetworkVal connection_status_message = ConnectionStatusMessage
  NetworkVal listener_params = lib.ListenerParams
  NetworkVal dial_params = lib.DialParams
  NetworkVal (other_type n) = lib.Value n

  abbrev pub network_types : Types
  network_types = record { Tag = NetworkTag; Val = NetworkVal; tag_dec = NetworkTag-discrete }

  -- What a payload holds.
  abbrev pub Held : Type 0
  Held = Holder network_types

  -- A context with `_net_root`, `_network_listeners` and `_network_connections`, and the calls of
  -- libdialler made so far, newest first.
  pub record NetworkContext : Type 0 where
    pub context : Context Held
    pub net_root : Address
    pub network_listeners : List (ℕ × ListenerPtr)
    pub network_connections : List (lib.DialParams × DialPtr)
    pub library_calls : List LibraryCall
