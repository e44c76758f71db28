-- ===== src/Context/Sound/Handling.antt =====
-- libyaaf/context.cpp: how an actor handles its mail, in any context.
use yaaf.Common.{
  ◌≤◌, ◌≡◌, refl, subst, Bool, none, some, Option, List, [], ◌∷◌, Str, length, arith, All, nat_eq,
}
use yaaf.Common.Outcomes.{ok}
use yaaf.Payload.{Envelope, IsFilled}
use yaaf.Mailbox.{Mailbox, no_mail, try_pop}
use yaaf.Mailbox.Fifo.{try_pop_nil, try_pop_filled}
use yaaf.Actor.{BaseActor}
use yaaf.Actor.Apply.{finish}
use yaaf.Context.State.{Context, Program, ActorPtr, BoxPtr, Event}
use yaaf.Context.Supervision.{context_host}
use yaaf.Context.Sound.{Evolves, Evolves-refl, Evolves-trans, Evolves-same}
use yaaf.Context.Sound.Sending.{box-Evolves}
use yaaf.Context.Frame.{Frame}
use yaaf.Context.Sound.Adding.{add_actor-Evolves}
use yaaf.Context.Sound.Stopping.{stop_actor_impl_safety-Evolves}
use yaaf.Context.Sound.Sending.{send_envelope-Evolves, publish_to_exchange-Evolves}
use yaaf.Context.Sound.Exchanging.{create_exchange-Evolves, subscribe_to_exchange-Evolves}

module _ {H : Type 0} where
  -- Only actors' objects and the calls made so far differ.
  pub told-Evolves :
      (s : Context H) (ob : ActorPtr → BaseActor) (ev : List (Event H))
      → length s.events ≤ length ev
      → Evolves s (record s { objects = ob; events = ev })
  told-Evolves s ob ev g =
      Evolves-same
        (record {
          next_actor_id = refl;
          actors = refl;
          id_by_name = refl;
          mboxes = refl;
          exchanges = refl;
          next_box = refl;
        })
        g (λ f. f)

  pub called-Evolves :
      (s : Context H) (e : Event H) → Evolves s (record s { events = e ∷ s.events })
  called-Evolves s e = told-Evolves s s.objects (e ∷ s.events) (omega arith)

  popped-IsFilled :
      (out e : Envelope H) (es : List (Envelope H)) (mb' : Mailbox H) (popped : Bool)
      → try_pop out (record { dqueue = es }) ≡ ok (popped, e, mb')
      → All IsFilled es
      → All IsFilled mb'.dqueue
  popped-IsFilled out e [] mb' popped h f =
      let same : no_mail ≡ mb' = ground (arith, try_pop_nil out) in
      subst (λ (x : Mailbox H). All IsFilled x.dqueue) same tt
  popped-IsFilled out e (x ∷ es) mb' popped h f =
      let same : record { dqueue = es } ≡ mb' = ground (arith, try_pop_filled out x es f.0) in
      subst (λ (x : Mailbox H). All IsFilled x.dqueue) same f.1

  pub try_pop-IsFilled :
      (out e : Envelope H) (mb mb' : Mailbox H) (popped : Bool)
      → try_pop out mb ≡ ok (popped, e, mb')
      → All IsFilled mb.dqueue
      → All IsFilled mb'.dqueue
  try_pop-IsFilled out e mb mb' popped h f = popped-IsFilled out e mb.dqueue mb' popped h f

module _ {H : Type 0} (program : Program H) where
  pub Evolves-Frame : Frame program Evolves
  Evolves-Frame = record {
    same = Evolves-refl;
    trans = Evolves-trans;
    adds = λ n parent a s t addr h. add_actor-Evolves program n parent a s t addr h;
    stops = λ reason addr s t h. stop_actor_impl_safety-Evolves program reason addr s t h;
    sends = λ target e s t h. send_envelope-Evolves program target e s t h;
    publishes = publish_to_exchange-Evolves;
    creates = create_exchange-Evolves;
    subscribes = subscribe_to_exchange-Evolves;
    called = called-Evolves;
    pops = λ b out e mb popped s got.
        box-Evolves b mb s (try_pop-IsFilled out e (s.boxes b) mb popped got);
  }

  module _ (a : ActorPtr) (b : BoxPtr) where
    pub finish-Evolves :
        (s : Context H) (out : Option Str)
        → Evolves s (finish (context_host program a b) (s, out)).0
    unfolding finish context_host
    finish-Evolves s none = told-Evolves s _ s.events (omega arith)
    finish-Evolves s (some what) = told-Evolves s _ s.events (omega arith)
