-- ===== src/Context/Supervision.antt =====
-- libyaaf/context.cpp: the tasks of the user threads, `apply_actor_to_mailbox` and `on_actor_error`.
pub mod Errors
pub mod Caught
use yaaf.Common.{
  ℕ, zero, suc, Bool, true, false, Option, none, some, List, [], ◌∷◌, Str, nat_eq, lookup, length,
}
use yaaf.Common.Outcomes.{Outcome, ok, thrown, null_deref, out_of_fuel, ◌>>=◌}
use yaaf.Address.{Address, no_address}
use yaaf.Payload.{Envelope}
use yaaf.Mailbox.{Mailbox}
use yaaf.Actor.{
  BaseActor, UserContext, ActorActionWhenError, reinit, stop, escalate, resume, normal, with_error,
  except,
}
use yaaf.Actor.Apply.{Host, apply}
use yaaf.Context.State.{
  Context, Description, Program, ActorPtr, BoxPtr, UserTask, start_actor, apply_mail, Event, Method,
  on_start, on_child_status, on_child_error, action_handle, update,
}
use yaaf.Context.Stop.{stop_actor_impl_safety}
use yaaf.Context.User.{run_method, run_alone}

module _ {H : Type 0} (program : Program H) where
  -- A method of an actor runs its calls through the actor's context, while that is there.
  unfoldable pub act : ActorPtr → Method H → Context H → Outcome (Context H × Option Str)
  unfolding run_method run_alone
  act a method s = elim (s.objects a).ctx [
    | none ↦ run_alone method s
    | some uc ↦ run_method program true uc method s
  ]

  unfoldable pub handle : ActorPtr → Envelope H → Context H → Outcome (Context H × Option Str)
  unfolding act
  handle a e s =
      act a (program.handles a s.events e) (record s { events = action_handle a e ∷ s.events })

  -- The actor and the mailbox that `apply` works on.
  unfoldable pub context_host : ActorPtr → BoxPtr → Host H (Context H)
  unfolding handle
  context_host a b = record {
    actor = λ s. s.objects a;
    set_actor = λ o s. record s { objects = update s.objects a o };
    mailbox = λ s. s.boxes b;
    set_mailbox = λ mb s. record s { boxes = update s.boxes b mb };
    action_handle = handle a;
  }

  -- `on_start`, whose exceptions nobody catches.
  unfoldable pub start : ActorPtr → Context H → Outcome (Context H)
  unfolding act
  start a s =
      act a (program.starts a s.events) (record s { events = on_start a ∷ s.events })
      >>= λ (s', ex). elim ex [ none ↦ ok s' | some what ↦ thrown what ]

  -- `on_child_error` of a parent.
  unfoldable pub ask : ActorPtr → Address → Context H → ActorActionWhenError × Context H
  ask p child s =
      (program.decides p s.events child, record s { events = on_child_error p child ∷ s.events })

  -- `while (action == ESCALATE)`: the search for a parent that is not there ends in `end()`, which is
  -- read through.
  unfoldable pub escalation :
      ℕ
      → ActorActionWhenError
      → Description
      → Context H
      → Outcome (ActorActionWhenError × Context H)
  unfolding ask
  escalation fuel reinit d s = ok (reinit, s)
  escalation fuel stop d s = ok (stop, s)
  escalation fuel resume d s = ok (resume, s)
  escalation zero escalate d s = out_of_fuel
  escalation (suc fuel) escalate d s =
      let asked = λ (p : Description).
        let (action, s') = ask p.actor d.address s in escalation fuel action p s' in
      elim (lookup d.parent s.actors) [ none ↦ null_deref | some p ↦ asked p ]

  unfoldable pub on_actor_error :
      ActorActionWhenError → Description → ActorPtr → Context H → Outcome (Context H)
  unfolding start
  on_actor_error reinit d parent s =
      stop_actor_impl_safety program d.address except s >>= λ s'. start d.actor s'
  on_actor_error stop d parent s = stop_actor_impl_safety program d.address except s
  on_actor_error escalate d parent s = ok s
  on_actor_error resume d parent s =
      ok (record s { events = on_child_status parent d.address with_error ∷ s.events })

  -- The `try` block is left without an exception, or with one.
  unfoldable pub applied :
      Description → Option ActorPtr → Context H × Option Str → Outcome (Context H)
  unfolding escalation on_actor_error
  applied d none (s, none) = ok s
  applied d (some p) (s, none) =
      ok (record s { events = on_child_status p d.address normal ∷ s.events })
  applied d none (s, some what) = stop_actor_impl_safety program d.address except s
  applied d (some p) (s, some what) =
      let (action, s1) = ask p d.address s in
      escalation (suc s.next_actor_id) action d s1 >>= λ (decided, s2).
      on_actor_error decided d p s2

  -- An exception of the `ENSURE` in `apply` is caught too; nothing has changed before it.
  unfoldable pub tried :
      Context H → Outcome (Context H × Option Str) → Outcome (Context H × Option Str)
  tried s (thrown m) = ok (s, some m)
  tried s (ok r) = ok r
  tried s null_deref = null_deref
  tried s out_of_fuel = out_of_fuel

  unfoldable pub apply_actor_to_mailbox :
      ℕ → Description → Option ActorPtr → BoxPtr → Context H → Outcome (Context H)
  unfolding applied tried context_host
  apply_actor_to_mailbox fuel d parent b s =
      tried s (apply (context_host d.actor b) program.double_checks program.ensure_text fuel s)
      >>= λ r. applied d parent r

  -- A user thread runs a task.
  unfoldable pub run_task : ℕ → UserTask → Context H → Outcome (Context H)
  unfolding start apply_actor_to_mailbox
  run_task fuel (start_actor a) s = start a s
  run_task fuel (apply_mail d parent b) s = apply_actor_to_mailbox fuel d parent b s
