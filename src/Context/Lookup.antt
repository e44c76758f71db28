-- ===== src/Context/Lookup.antt =====
-- libyaaf/context.cpp: `get_actor` and `get_address`.
use yaaf.Common.{Option, none, some, Str, nat_eq, str_eq, lookup}
use yaaf.Address.{IdT, Address, no_address}
use yaaf.Context.State.{Context, Description, ActorPtr}

actor_of : Option Description → Option ActorPtr
actor_of none = none
actor_of (some d) = some d.actor

address_of : Option Description → Address
address_of none = no_address
address_of (some d) = d.address

module _ {H : Type 0} where
  described : Option IdT → Context H → Option Description
  described none s = none
  described (some i) s = lookup i s.actors

  -- `get_actor(const actor_address &)`.
  unfoldable pub get_actor : Address → Context H → Option ActorPtr
  unfolding actor_of
  get_actor addr s = actor_of (lookup addr.id s.actors)

  -- `get_actor(const std::string &)`.
  unfoldable pub get_actor_by_name : Str → Context H → Option ActorPtr
  unfolding actor_of described
  get_actor_by_name name s = actor_of (described (lookup name s.id_by_name) s)

  -- `get_address`.
  unfoldable pub get_address : Str → Context H → Address
  unfolding address_of described
  get_address name s = address_of (described (lookup name s.id_by_name) s)
