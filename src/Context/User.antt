-- ===== src/Context/User.antt =====
-- libyaaf/context.cpp: `user_context`, through which an actor calls its context. `alive` tells whether
-- the weak pointer to the context can still be locked.
use yaaf.Common.{Bool, false, not, if◌then◌else◌, ◌&&◌, Option, none, some, Str}
use yaaf.Common.Outcomes.{Outcome, ok, thrown, null_deref, out_of_fuel, ◌>>=◌}
use yaaf.Address.{Address, no_address}
use yaaf.Payload.{Payload, Envelope, copy}
use yaaf.Actor.{UserContext}
use yaaf.Context.State.{
  Context, Program, ActorPtr, Call, calls_send, calls_add, calls_stop, calls_create_exchange,
  calls_subscribe, calls_publish, calls_get_address, calls_get_actor, calls_get_actor_by_name,
  calls_exchange_exists, Answer, no_context, done, an_address, an_actor, a_truth, Method, returns,
  throws, crashes, calls,
}
use yaaf.Context.Add.{add_actor}
use yaaf.Context.Stop.{stop_actor}
use yaaf.Context.Lookup.{get_actor, get_actor_by_name, get_address}
use yaaf.Context.Send.{send_envelope}
use yaaf.Context.Exchanges.{
  create_exchange, subscribe_to_exchange, publish_to_exchange, exchange_exists,
}

-- A call that gives nothing back.
unfoldable pub finished : {H : Type 0} → Outcome (Context H) → Outcome (Answer × Context H)
finished m = m >>= λ s'. ok (done, s')

module _ {H : Type 0} (program : Program H) (alive : Bool) (uc : UserContext) where
  -- The context is there and has not begun to stop.
  abbrev pub open_for : Context H → Bool
  open_for s = alive && not s.stopping_begin

  unfoldable pub user_add_actor : Str → ActorPtr → Context H → Outcome (Address × Context H)
  user_add_actor n a s = if open_for s then add_actor program n uc.addr a s else ok (no_address, s)

  -- `envelope cp{e.payload, _addr}`.
  unfoldable pub signed : Payload H → Outcome (Envelope H)
  signed p = copy p >>= λ q. ok (record { payload = q; sender = uc.addr })

  unfoldable pub user_send_envelope : Address → Envelope H → Context H → Outcome (Context H)
  unfolding signed
  user_send_envelope target e s =
      if open_for s then (signed e.payload >>= λ cp. send_envelope program target cp s) else ok s

  unfoldable pub user_stop_actor : Address → Context H → Outcome (Context H)
  user_stop_actor addr s = if open_for s then stop_actor program addr s else ok s

  unfoldable pub user_get_actor : Address → Context H → Option ActorPtr
  user_get_actor addr s = if open_for s then get_actor addr s else none

  unfoldable pub user_get_actor_by_name : Str → Context H → Option ActorPtr
  user_get_actor_by_name n s = if open_for s then get_actor_by_name n s else none

  -- These do not ask whether the context has begun to stop.
  unfoldable pub user_get_address : Str → Context H → Address
  user_get_address n s = if alive then get_address n s else no_address

  unfoldable pub user_create_exchange : Str → Context H → Context H
  user_create_exchange n s = if alive then create_exchange uc.addr n s else s

  unfoldable pub user_subscribe_to_exchange : Str → Context H → Context H
  user_subscribe_to_exchange n s = if alive then subscribe_to_exchange uc.addr n s else s

  unfoldable pub user_publish_to_exchange : Str → Envelope H → Context H → Outcome (Context H)
  unfolding signed
  user_publish_to_exchange n e s =
      if alive then (signed e.payload >>= λ cp. publish_to_exchange n cp s) else ok s

  unfoldable pub user_exchange_exists : Str → Context H → Bool
  user_exchange_exists n s = if alive then exchange_exists n s else false

  -- `abstract_context::send` and `publish` wrap the value in an envelope with no sender.
  unfoldable pub wrapped : Payload H → Envelope H
  wrapped p = record { payload = p; sender = no_address }

  unfoldable pub run_call : Call H → Context H → Outcome (Answer × Context H)
  unfolding finished wrapped user_add_actor user_send_envelope user_stop_actor user_create_exchange
      user_subscribe_to_exchange user_publish_to_exchange user_get_address user_get_actor
      user_get_actor_by_name user_exchange_exists
  run_call (calls_send target p) s = finished (user_send_envelope target (wrapped p) s)
  run_call (calls_add n a) s = user_add_actor n a s >>= λ (addr, s'). ok (an_address addr, s')
  run_call (calls_stop addr) s = finished (user_stop_actor addr s)
  run_call (calls_create_exchange n) s = ok (done, user_create_exchange n s)
  run_call (calls_subscribe n) s = ok (done, user_subscribe_to_exchange n s)
  run_call (calls_publish n p) s = finished (user_publish_to_exchange n (wrapped p) s)
  run_call (calls_get_address n) s = ok (an_address (user_get_address n s), s)
  run_call (calls_get_actor addr) s = ok (an_actor (user_get_actor addr s), s)
  run_call (calls_get_actor_by_name n) s = ok (an_actor (user_get_actor_by_name n s), s)
  run_call (calls_exchange_exists n) s = ok (a_truth (user_exchange_exists n s), s)

  -- An exception of a call ends the method; the calls before it have taken effect.
  unfoldable pub caught :
      Outcome (Answer × Context H)
      → Context H
      → (Answer → Context H → Outcome (Context H × Option Str))
      → Outcome (Context H × Option Str)
  caught (ok (ans, s')) s go = go ans s'
  caught (thrown m) s go = ok (s, some m)
  caught null_deref s go = null_deref
  caught out_of_fuel s go = out_of_fuel

  -- A method, and the exception that ends it, if any.
  unfoldable pub run_method : Method H → Context H → Outcome (Context H × Option Str)
  unfolding run_call caught
  run_method returns s = ok (s, none)
  run_method (throws what) s = ok (s, some what)
  run_method crashes s = null_deref
  run_method (calls c next) s = caught (run_call c s) s (λ ans s'. run_method (next ans) s')

module _ {H : Type 0} where
  -- A method of an actor whose context is gone: it calls nothing.
  unfoldable pub run_alone : Method H → Context H → Outcome (Context H × Option Str)
  run_alone returns s = ok (s, none)
  run_alone (throws what) s = ok (s, some what)
  run_alone crashes s = null_deref
  run_alone (calls c next) s = run_alone (next no_context) s
