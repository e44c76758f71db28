-- ===== src/Actor.antt =====
-- libyaaf/actor.h and libyaaf/actor.cpp: `base_actor`. Its virtual methods are the program's user's:
-- they stand in the `Host` record of `Actor.Apply`.
pub mod Apply
pub mod Lock
pub mod Delivery
use yaaf.Common.{ℕ, Bool, true, false, if◌then◌else◌, not, Option, none, some, [], Str}
use yaaf.Address.{Address, no_address}

pub data ActorStatusKinds : Type 0 where
  normal with_error stoped : ActorStatusKinds

pub data ActorStoppingReason : Type 0 where
  manual except : ActorStoppingReason

pub data ActorActionWhenError : Type 0 where
  reinit stop escalate resume : ActorActionWhenError

-- `base_actor::status_t`.
pub record Status : Type 0 where
  pub kind : ActorStatusKinds
  pub msg : Str

-- The `user_context` of an actor that `_ctx` refers to: the actor's address and the context's name.
pub record UserContext : Type 0 where
  pub addr : Address
  pub name : Str

pub record BaseActor : Type 0 where
  pub busy : Bool
  pub status : Status
  pub sa : Address
  pub ctx : Option UserContext

-- `base_actor()`.
abbrev pub base_actor : BaseActor
base_actor = record {
  busy = false;
  status = record { kind = normal; msg = [] };
  sa = no_address;
  ctx = none;
}

unfoldable pub update_status : ActorStatusKinds → Str → BaseActor → BaseActor
update_status k m a = record a { status = record { kind = k; msg = m } }

unfoldable pub reset_busy : BaseActor → BaseActor
reset_busy a = record a { busy = false }

-- `base_actor::on_stop`: `update_status(STOPED)`, which clears the message.
unfoldable pub on_stop : BaseActor → BaseActor
unfolding update_status
on_stop a = update_status stoped [] a

-- `base_actor::on_child_error`.
unfoldable pub default_on_child_error : Address → ActorActionWhenError
default_on_child_error addr = resume

unfoldable pub set_self_addr : Address → BaseActor → BaseActor
set_self_addr addr a = record a { sa = addr }

unfoldable pub set_context : Option UserContext → BaseActor → BaseActor
set_context c a = record a { ctx = c }

-- `try_lock`: `between` is what other threads do to `_busy` after the load and before the exchange.
unfoldable pub try_lock : (Bool → Bool) → BaseActor → Bool × BaseActor
try_lock between a =
    let seen = between a.busy in
    if a.busy
    then (false, record a { busy = seen })
    else if seen
    then (false, record a { busy = true })
    else (true, record a { busy = true })
