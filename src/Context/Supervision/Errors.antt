-- ===== src/Context/Supervision/Errors.antt =====
-- libyaaf/context.cpp: what becomes of an actor whose handler has thrown.
use yaaf.Common.{◌≡◌, sym, Option-cases, inl, inr, ◌∷◌, List, nat_eq, arith, suc}
use yaaf.Common.Outcomes.{ok, >>=-eq-ok, ok-injective}
use yaaf.Address.{Address, address_of_id}
use yaaf.Actor.{ActorActionWhenError, reinit, stop, escalate, resume, except, with_error}
use yaaf.Context.State.{
  Context, Description, Program, ActorPtr, Event, returns, on_start, on_child_status,
}
use yaaf.Context.Stop.{stop_actor_impl_safety}
use yaaf.Context.Stop.Effect.{StopEffect, stop_actor_impl-StopEffect}
use yaaf.Context.User.{run_method, run_alone}
use yaaf.Context.Supervision.{start, act, on_actor_error}

module _ {H : Type 0} (program : Program H) where
  safety-effect :
      (addr : Address) (s t : Context H)
      → stop_actor_impl_safety program addr except s ≡ ok t
      → StopEffect s addr.id t
  unfolding stop_actor_impl_safety
  safety-effect addr s t e =
      stop_actor_impl-StopEffect program except (suc s.next_actor_id) (address_of_id addr.id) s t e

  started_same :
      (a : ActorPtr) (u t : Context H)
      → ((events : List (Event H)) → program.starts a events ≡ returns)
      → start program a u ≡ ok t
      → t ≡ record u { events = on_start a ∷ u.events }
  unfolding start act run_method run_alone
  started_same a u t idle e = elim (Option-cases (u.objects a).ctx) [
    | inl absent ↦ ground (arith, idle u.events, absent)
    | inr (uc, there) ↦ ground (arith, idle u.events, there)
  ]

  -- What a decision does: STOP removes the actor with all that is below it; REINIT does the same, and then
  -- calls `on_start` of the removed actor; RESUME tells the parent of the error; ESCALATE does nothing.
  abbrev pub Decided :
      ActorActionWhenError → Description → ActorPtr → Context H → Context H → Type 0
  Decided reinit d p s t =
      (u : Context H) × StopEffect s d.address.id u
      × (t ≡ record u { events = on_start d.actor ∷ u.events })
  Decided stop d p s t = StopEffect s d.address.id t
  Decided escalate d p s t = t ≡ s
  Decided resume d p s t =
      t ≡ record s { events = on_child_status p d.address with_error ∷ s.events }

  -- On an actor whose `on_start` makes no calls, `on_actor_error` that returns has done this: after STOP and
  -- after REINIT the actor, and only what is at or under it, is removed, and with each actor its children;
  -- REINIT has then called `on_start` of the removed actor; RESUME has told the parent of the error, and
  -- nothing else; ESCALATE has done nothing.
  pub on_actor_error_lem :
      (action : ActorActionWhenError) (d : Description) (parent : ActorPtr) (s t : Context H)
      → ((events : List (Event H)) → program.starts d.actor events ≡ returns)
      → on_actor_error program action d parent s ≡ ok t
      → Decided action d parent s t
  unfolding on_actor_error
  on_actor_error_lem reinit d parent s t idle e =
      let (u, stopped, started) =
        >>=-eq-ok (stop_actor_impl_safety program d.address except s) (λ x. start program d.actor x)
          e in
      (u, safety-effect d.address s u stopped, started_same d.actor u t idle started)
  on_actor_error_lem stop d parent s t idle e = safety-effect d.address s t e
  on_actor_error_lem escalate d parent s t idle e = ok-injective (sym e)
  on_actor_error_lem resume d parent s t idle e = ok-injective (sym e)
