-- ===== src/Context/State.antt =====
-- libyaaf/context.h: the state of a `context`, and what an actor's author supplies.
use yaaf.Common.{ℕ, Bool, false, if◌then◌else◌, Option, some, List, [], Str, ◌==◌, nat_eq}
use yaaf.Address.{IdT, Address, no_address}
use yaaf.Payload.{Envelope, Payload}
use yaaf.Mailbox.{Mailbox, no_mail}
use yaaf.Actor.{
  BaseActor, UserContext, ActorStatusKinds, ActorStoppingReason, ActorActionWhenError, base_actor,
}

-- A pointer to an actor object, and one to a mailbox.
abbrev pub ActorPtr : Type 0
ActorPtr = ℕ

abbrev pub BoxPtr : Type 0
BoxPtr = ℕ

-- `inner::description`. `actor_settings` has no fields and is left out.
pub record Description : Type 0 where
  pub actor : ActorPtr
  pub address : Address
  pub usrcont : Option UserContext
  pub name : Str
  pub parent : IdT
  pub children : List IdT

-- `inner::exchange_t`.
pub record ExchangeT : Type 0 where
  pub subscribes : List IdT
  pub owner : Address
  pub pub_box : BoxPtr

-- The calls of virtual methods that an actor's author sees, with what they are given.
pub data Event (H : Type 0) : Type 0 where
  on_init : ActorPtr → Event H
  on_start : ActorPtr → Event H
  on_stop : ActorPtr → Event H
  on_child_stopped : ActorPtr → Address → ActorStoppingReason → Event H
  on_child_status : ActorPtr → Address → ActorStatusKinds → Event H
  on_child_error : ActorPtr → Address → Event H
  action_handle : ActorPtr → Envelope H → Event H

-- What `user_post` is given: the lambdas of `add_actor` and of `mailbox_worker`.
pub data UserTask : Type 0 where
  start_actor : ActorPtr → UserTask
  apply_mail : Description → Option ActorPtr → BoxPtr → UserTask

-- `_thread_manager`, when it is not null: whether it takes tasks.
pub data Manager : Type 0 where
  accepting stopping : Manager

-- The fields of `context`, and the heap: the actors' and the mailboxes' objects behind the shared
-- pointers, the tasks posted to the user threads and not yet run, oldest first, and the calls of
-- virtual methods made so far, newest first.
pub record Context (H : Type 0) : Type 0 where
  pub name : Str
  pub thread_manager : Option Manager
  pub next_actor_id : IdT
  pub actors : List (IdT × Description)
  pub id_by_name : List (Str × IdT)
  pub mboxes : List (IdT × BoxPtr)
  pub exchanges : List (Str × ExchangeT)
  pub stopping_begin : Bool
  pub root : Address
  pub usr_root : Address
  pub sys_root : Address
  pub objects : ActorPtr → BaseActor
  pub boxes : BoxPtr → Mailbox H
  pub next_box : BoxPtr
  pub posted : List UserTask
  pub events : List (Event H)

-- What an actor's method may do through its context.
pub data Call (H : Type 0) : Type 0 where
  calls_send : Address → Payload H → Call H
  calls_add : Str → ActorPtr → Call H
  calls_stop : Address → Call H
  calls_create_exchange : Str → Call H
  calls_subscribe : Str → Call H
  calls_publish : Str → Payload H → Call H
  calls_get_address : Str → Call H
  calls_get_actor : Address → Call H
  calls_get_actor_by_name : Str → Call H
  calls_exchange_exists : Str → Call H

-- What a call gives back; `no_context` where `get_context` gives a null pointer.
pub data Answer : Type 0 where
  no_context : Answer
  done : Answer
  an_address : Address → Answer
  an_actor : Option ActorPtr → Answer
  a_truth : Bool → Answer

-- A virtual method as its author writes it: it returns, throws, reads a null pointer, or makes a call
-- and goes on with the answer.
pub data Method (H : Type 0) : Type 0 where
  returns : Method H
  throws : Str → Method H
  crashes : Method H
  calls : Call H → (Answer → Method H) → Method H

-- The build's `DOUBLE_CHECKS` with the text of its exceptions, and the actors' virtual methods. What a
-- method does may depend on all calls made before and on what they were given, and so on the actor's
-- own fields. Of the other virtual methods it is assumed that they return, throw nothing and make no
-- call of the context: `on_init`, which is only recorded; `on_stop`, which may change the actor's object;
-- `on_child_error`, which decides; and `on_child_status` and `on_child_stopped`, which are recorded.
pub record Program (H : Type 0) : Type 0 where
  pub double_checks : Bool
  pub ensure_text : Str
  pub stops : ActorPtr → BaseActor → BaseActor
  pub decides : ActorPtr → List (Event H) → Address → ActorActionWhenError
  pub starts : ActorPtr → List (Event H) → Method H
  pub handles : ActorPtr → List (Event H) → Envelope H → Method H

-- `new context`, before `start`.
abbrev pub new_context : {H : Type 0} → Str → Context H
new_context n = record {
  name = n;
  thread_manager = some accepting;
  next_actor_id = 1;
  actors = [];
  id_by_name = [];
  mboxes = [];
  exchanges = [];
  stopping_begin = false;
  root = no_address;
  usr_root = no_address;
  sys_root = no_address;
  objects = λ p. base_actor;
  boxes = λ b. no_mail;
  next_box = 0;
  posted = [];
  events = [];
}

-- A write to one cell of the heap.
abbrev pub update {ℓ} : {A : Type ℓ} → (ℕ → A) → ℕ → A → ℕ → A
update f k a j = if j == k then a else f j
