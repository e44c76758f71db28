-- ===== src/Context/Exchanges.antt =====
-- libyaaf/context.cpp: the exchanges.
pub mod Topics
use yaaf.Common.{
  ◌+◌, Bool, Option, none, some, is_some, if◌then◌else◌, [], ◌∷◌, ◌++◌, Str, nat_eq, str_eq, lookup,
  insert, adjust,
}
use yaaf.Common.Outcomes.{Outcome, ok}
use yaaf.Address.{IdT, Address}
use yaaf.Payload.{Envelope}
use yaaf.Mailbox.{no_mail}
use yaaf.Context.State.{Context, ExchangeT, update}
use yaaf.Context.Send.{push_to}

-- `subscribes.push_back`.
abbrev pub add_subscriber : IdT → ExchangeT → ExchangeT
add_subscriber i x = record x { subscribes = x.subscribes ++ i ∷ [] }

module _ {H : Type 0} where
  -- `exchange_exists`.
  unfoldable pub exchange_exists : Str → Context H → Bool
  exchange_exists name s = is_some (lookup name s.exchanges)

  unfoldable pub create_exchange_unsafe : Address → Str → Context H → Context H
  create_exchange_unsafe owner name s = if is_some (lookup name s.exchanges) then s else record s {
    exchanges =
        insert name (record { subscribes = []; owner = owner; pub_box = s.next_box }) s.exchanges;
    boxes = update s.boxes s.next_box no_mail;
    next_box = s.next_box + 1;
  }

  unfoldable pub create_exchange : Address → Str → Context H → Context H
  unfolding create_exchange_unsafe
  create_exchange owner name s = create_exchange_unsafe owner name s

  -- Creates the exchange if it is missing, then subscribes the target if it is an actor.
  unfoldable pub subscribe_to_exchange : Address → Str → Context H → Context H
  unfolding create_exchange_unsafe
  subscribe_to_exchange target name s =
      let s1 =
        if is_some (lookup name s.exchanges) then s else create_exchange_unsafe target name s in
      if is_some (lookup target.id s1.actors)
      then record s1 { exchanges = adjust name (add_subscriber target.id) s1.exchanges }
      else s1

  unfoldable pub publish_on : Option ExchangeT → Envelope H → Context H → Outcome (Context H)
  unfolding push_to
  publish_on none e s = ok s
  publish_on (some x) e s = push_to x.pub_box e s

  -- `publish_to_exchange(const std::string &, const envelope &&)`.
  unfoldable pub publish_to_exchange : Str → Envelope H → Context H → Outcome (Context H)
  unfolding publish_on
  publish_to_exchange name e s = publish_on (lookup name s.exchanges) e s
