-- ===== src/Context/Calm.antt =====
-- libyaaf/context.cpp: what marks no actor as busy or as free and posts no task to apply one.
pub mod Tasks
use yaaf.Common.{
  ℕ, suc, ◌+◌, ◌≤◌, ◌≡◌, refl, sym, ap, subst, ◌∙◌, Bool, true, false, Option, none, some, List, [],
  ◌∷◌, ◌++◌, Str, if◌then◌else◌, is_some, lookup, nat_eq, str_eq, nat_beq_iff, ◌==◌, arith,
  Option-cases, Bool-cases, inl, inr,
}
use yaaf.Common.Outcomes.{Outcome, ok, ◌>>=◌, >>=-eq-ok, ok-injective}
use yaaf.Address.{IdT, Address, address_of_id, id_inc}
use yaaf.Payload.{Envelope}
use yaaf.Mailbox.{push}
use yaaf.Actor.{BaseActor, ActorStoppingReason, manual, set_context, set_self_addr}
use yaaf.Context.State.{
  Context, Program, Description, ActorPtr, BoxPtr, UserTask, start_actor, ExchangeT, update,
}
use yaaf.Context.Add.{add_actor, add_begin, add_commit, register, user_post}
use yaaf.Context.Stop.{finish_stop, stop_actor_impl_safety, stop_actor}
use yaaf.Context.Send.{push_to, deliver_to, send_envelope}
use yaaf.Context.Exchanges.{
  create_exchange_unsafe, create_exchange, subscribe_to_exchange, publish_on, publish_to_exchange,
}
use yaaf.Context.Worker.Exclusive.{applies, applies-append, IsExclusive}
use yaaf.Context.Frame.{Frame}
use yaaf.Context.Frame.Stopping.{stop_actor_impl_kept}
use yaaf.Context.Frame.Relaying.{BoxFrame}

module _ {H : Type 0} where
  pub record Calm (s t : Context H) : Type 0 where
    pub busy : (a : ActorPtr) → (t.objects a).busy ≡ (s.objects a).busy
    pub waiting : (a : ActorPtr) → applies a t.posted ≡ applies a s.posted

  pub Calm-refl : (s : Context H) → Calm s s
  Calm-refl s = record { busy = λ a. refl; waiting = λ a. refl }

  pub Calm-trans : {s t u : Context H} → Calm s t → Calm t u → Calm s u
  Calm-trans h k = record {
    busy = λ a. k.busy a ∙ h.busy a;
    waiting = λ a. k.waiting a ∙ h.waiting a;
  }

  pub Calm-IsExclusive : {s t : Context H} → Calm s t → IsExclusive s → IsExclusive t
  Calm-IsExclusive h v a = ground (arith, h.busy a, h.waiting a, v a)

  -- Neither the objects nor the tasks differ.
  pub Calm-same : {s t : Context H} → t.objects ≡ s.objects → t.posted ≡ s.posted → Calm s t
  Calm-same o p = record { busy = λ a. ap (λ f. (f a).busy) o; waiting = λ a. ap (applies a) p }

  pub push_to-Calm :
      (b : BoxPtr) (e : Envelope H) (s t : Context H) → push_to b e s ≡ ok t → Calm s t
  unfolding push_to
  push_to-Calm b e s t h =
      let (mb, _, last) =
        >>=-eq-ok (push e (s.boxes b)) (λ mb. ok (record s { boxes = update s.boxes b mb })) h in
      subst (Calm s) (ok-injective last) (Calm-same refl refl)

  deliver_to-Calm :
      (o : Option BoxPtr) (e : Envelope H) (s t : Context H) → deliver_to o e s ≡ ok t → Calm s t
  unfolding deliver_to
  deliver_to-Calm none e s t h = subst (Calm s) (ok-injective h) (Calm-refl s)
  deliver_to-Calm (some b) e s t h = push_to-Calm b e s t h

  publish_on-Calm :
      (o : Option ExchangeT) (e : Envelope H) (s t : Context H) → publish_on o e s ≡ ok t → Calm s t
  unfolding publish_on
  publish_on-Calm none e s t h = subst (Calm s) (ok-injective h) (Calm-refl s)
  publish_on-Calm (some x) e s t h = push_to-Calm x.pub_box e s t h

  create_exchange_unsafe-Calm :
      (owner : Address) (n : Str) (s : Context H) → Calm s (create_exchange_unsafe owner n s)
  unfolding create_exchange_unsafe
  create_exchange_unsafe-Calm owner n s = elim (Bool-cases (is_some (lookup n s.exchanges))) [
    | inl there ↦ rw there (Calm-refl s)
    | inr missing ↦ rw missing (Calm-same refl refl)
  ]

  subscribe_to_exchange-Calm :
      (target : Address) (n : Str) (s : Context H) → Calm s (subscribe_to_exchange target n s)
  unfolding subscribe_to_exchange create_exchange_unsafe
  subscribe_to_exchange-Calm target n s = Calm-same (ground arith) (ground arith)

  pub Calm-BoxFrame : BoxFrame Calm
  Calm-BoxFrame = record {
    same = Calm-refl;
    trans = Calm-trans;
    pushes = push_to-Calm;
    pops = λ b out e mb popped s got. Calm-same refl refl;
  }

module _ {H : Type 0} (program : Program H)
    (steady : (a : ActorPtr) (o : BaseActor) → (program.stops a o).busy ≡ o.busy) where
  add_actor-Calm :
      (n : Str) (parent : Address) (a : ActorPtr) (s t : Context H) (addr : Address)
      → add_actor program n parent a s ≡ ok (addr, t)
      → Calm s t
  unfolding add_actor add_begin add_commit register user_post set_context set_self_addr applies
  add_actor-Calm n parent a s t addr e = record {
    busy = λ b. ground (arith, nat_beq_iff b a);
    waiting = λ b. ground (arith, applies-append b s.posted (start_actor a ∷ []));
  }

  finish_stop-Calm :
      (reason : ActorStoppingReason) (addr : Address) (d : Description) (s : Context H)
      → Calm s (finish_stop program addr reason d s)
  unfolding finish_stop set_context
  finish_stop-Calm reason addr d s = record {
    busy = λ b. ground (arith, nat_beq_iff b d.actor, steady d.actor (s.objects d.actor));
    waiting = λ b. ground arith;
  }

  stop_actor_impl_safety-Calm :
      (reason : ActorStoppingReason) (addr : Address) (s t : Context H)
      → stop_actor_impl_safety program addr reason s ≡ ok t
      → Calm s t
  unfolding stop_actor_impl_safety
  stop_actor_impl_safety-Calm reason addr s t e =
      stop_actor_impl_kept {R = Calm} Calm-refl (λ s t u h k. Calm-trans h k) program reason
        (finish_stop-Calm reason) (suc s.next_actor_id) (address_of_id addr.id) s t e

  pub stop_actor-Calm :
      (addr : Address) (s t : Context H) → stop_actor program addr s ≡ ok t → Calm s t
  unfolding stop_actor
  stop_actor-Calm addr s t h = stop_actor_impl_safety-Calm manual (address_of_id addr.id) s t h

  pub Calm-Frame : Frame program Calm
  unfolding send_envelope publish_to_exchange create_exchange
  Calm-Frame = record {
    same = Calm-refl;
    trans = Calm-trans;
    adds = add_actor-Calm;
    stops = stop_actor_impl_safety-Calm;
    sends = λ target e s t h. deliver_to-Calm (lookup target.id s.mboxes) e s t (ground arith);
    publishes = λ n e s t h. publish_on-Calm (lookup n s.exchanges) e s t h;
    creates = create_exchange_unsafe-Calm;
    subscribes = subscribe_to_exchange-Calm;
    called = λ s e. Calm-same refl refl;
    pops = λ b out e mb popped s got. Calm-same refl refl;
  }
