-- ===== src/Context/Frame.antt =====
-- libyaaf/context.cpp: what holds between a context before and after whatever actors do. A relation that
-- is kept by each operation of the context is kept by calls, by handlers and by the tasks made of them.
pub mod Calls
pub mod Handling
pub mod Tasks
pub mod Stopping
pub mod Relaying
pub mod Starting
use yaaf.Common.{ℕ, ◌≡◌, Bool, Option, List, ◌∷◌, Str}
use yaaf.Common.Outcomes.{ok}
use yaaf.Address.{Address}
use yaaf.Payload.{Envelope}
use yaaf.Mailbox.{Mailbox, try_pop}
use yaaf.Actor.{ActorStoppingReason}
use yaaf.Context.State.{Context, Program, ActorPtr, BoxPtr, Event, update}
use yaaf.Context.Add.{add_actor}
use yaaf.Context.Stop.{stop_actor_impl_safety}
use yaaf.Context.Send.{send_envelope}
use yaaf.Context.Exchanges.{create_exchange, subscribe_to_exchange, publish_to_exchange}

pub record Frame {H : Type 0} (program : Program H) (R : Context H → Context H → Type 0)
    : Type 0 where
  pub same : (s : Context H) → R s s
  pub trans : {s t u : Context H} → R s t → R t u → R s u
  pub adds :
      (n : Str) (parent : Address) (a : ActorPtr) (s t : Context H) (addr : Address)
      → add_actor program n parent a s ≡ ok (addr, t)
      → R s t
  pub stops :
      (reason : ActorStoppingReason) (addr : Address) (s t : Context H)
      → stop_actor_impl_safety program addr reason s ≡ ok t
      → R s t
  pub sends :
      (target : Address) (e : Envelope H) (s t : Context H)
      → send_envelope program target e s ≡ ok t
      → R s t
  pub publishes :
      (n : Str) (e : Envelope H) (s t : Context H) → publish_to_exchange n e s ≡ ok t → R s t
  pub creates : (owner : Address) (n : Str) (s : Context H) → R s (create_exchange owner n s)
  pub subscribes :
      (target : Address) (n : Str) (s : Context H) → R s (subscribe_to_exchange target n s)
  pub called : (s : Context H) (e : Event H) → R s (record s { events = e ∷ s.events })
  pub pops :
      (b : BoxPtr) (out e : Envelope H) (mb : Mailbox H) (popped : Bool) (s : Context H)
      → try_pop out (s.boxes b) ≡ ok (popped, e, mb)
      → R s (record s { boxes = update s.boxes b mb })
