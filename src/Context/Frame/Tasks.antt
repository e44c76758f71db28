-- ===== src/Context/Frame/Tasks.antt =====
-- libyaaf/context.cpp: what the user threads run, as far as a relation is kept.
use yaaf.Common.{
  ℕ, zero, suc, ◌≡◌, refl, subst, none, some, Option, Str, arith, Option-cases, inl, inr, lookup,
  nat_eq,
}
use yaaf.Common.Outcomes.{Outcome, ok, thrown, null_deref, out_of_fuel, >>=-eq-ok, ok-injective}
use yaaf.Actor.{ActorActionWhenError, reinit, stop, escalate, resume, except, normal, with_error}
use yaaf.Actor.Apply.{apply, finish}
use yaaf.Context.State.{
  Context, Program, ActorPtr, BoxPtr, Description, on_child_status, on_child_error,
}
use yaaf.Context.Stop.{stop_actor_impl_safety}
use yaaf.Context.Supervision.{
  context_host, start, ask, escalation, on_actor_error, applied, tried, apply_actor_to_mailbox,
}
use yaaf.Context.Frame.{Frame}
use yaaf.Context.Frame.Handling.{start_kept, apply_kept}

module _ {H : Type 0} (program : Program H) {R : Context H → Context H → Type 0}
    (k : Frame program R) where
  escalation_kept :
      (fuel : ℕ) (action : ActorActionWhenError) (d : Description) (s t : Context H)
      (decided : ActorActionWhenError)
      → escalation program fuel action d s ≡ ok (decided, t)
      → R s t
  unfolding escalation
  escalation_kept fuel reinit d s t decided h = subst (R s) (ground arith) (k.same s)
  escalation_kept fuel stop d s t decided h = subst (R s) (ground arith) (k.same s)
  escalation_kept fuel resume d s t decided h = subst (R s) (ground arith) (k.same s)
  escalation_kept zero escalate d s t decided h = absurd (ground arith)
  escalation_kept (suc fuel) escalate d s t decided h =
      elim (Option-cases (lookup d.parent s.actors)) [
        | inl missing ↦ absurd (ground arith)
        | inr (p, found) ↦
            let (action, s1) = ask program p.actor d.address s in
            k.trans (k.called s (on_child_error p.actor d.address))
              (escalation_kept fuel action p s1 t decided (rw (found, escalation) at h))
      ]

  on_actor_error_kept :
      (action : ActorActionWhenError) (d : Description) (parent : ActorPtr) (s t : Context H)
      → on_actor_error program action d parent s ≡ ok t
      → R s t
  unfolding on_actor_error
  on_actor_error_kept reinit d parent s t h =
      let (u, stopped, started) =
        >>=-eq-ok (stop_actor_impl_safety program d.address except s) (λ u. start program d.actor u)
          h in
      k.trans (k.stops except d.address s u stopped) (start_kept program k d.actor u t started)
  on_actor_error_kept stop d parent s t h = k.stops except d.address s t h
  on_actor_error_kept escalate d parent s t h = subst (R s) (ok-injective h) (k.same s)
  on_actor_error_kept resume d parent s t h =
      subst (R s) (ok-injective h) (k.called s (on_child_status parent d.address with_error))

  pub applied_kept :
      (d : Description) (parent : Option ActorPtr) (r : Context H × Option Str) (t : Context H)
      → applied program d parent r ≡ ok t
      → R r.0 t
  unfolding applied
  applied_kept d none (s, none) t h = subst (R s) (ok-injective h) (k.same s)
  applied_kept d (some p) (s, none) t h =
      subst (R s) (ok-injective h) (k.called s (on_child_status p d.address normal))
  applied_kept d none (s, some what) t h = k.stops except d.address s t h
  applied_kept d (some p) (s, some what) t h =
      let (action, s1) = ask program p d.address s in
      let ((decided, u), escalated, rest) =
        >>=-eq-ok (escalation program (suc s.next_actor_id) action d s1)
          (λ (decided, u). on_actor_error program decided d p u) h in
      k.trans (k.called s (on_child_error p d.address)) (
        k.trans (escalation_kept (suc s.next_actor_id) action d s1 u decided escalated)
          (on_actor_error_kept decided d p u t rest))

  pub tried_kept :
      (m : Outcome (Context H × Option Str)) (s : Context H) (r : Context H × Option Str)
      → ((q : Context H × Option Str) → m ≡ ok q → R s q.0)
      → tried program s m ≡ ok r
      → R s r.0
  unfolding tried
  tried_kept (thrown text) s r one h =
      subst (λ (x : Context H × Option Str). R s x.0) (ok-injective h) (k.same s)
  tried_kept (ok q) s r one h =
      subst (λ (x : Context H × Option Str). R s x.0) (ok-injective h) (one q refl)
  tried_kept null_deref s r one h = absurd (ground arith)
  tried_kept out_of_fuel s r one h = absurd (ground arith)

  pub apply_actor_to_mailbox_kept :
      (d : Description) (parent : Option ActorPtr) (b : BoxPtr)
      → ((s : Context H) (out : Option Str)
          → R s (finish (context_host program d.actor b) (s, out)).0)
      → (fuel : ℕ) (s t : Context H) → apply_actor_to_mailbox program fuel d parent b s ≡ ok t
      → R s t
  unfolding apply_actor_to_mailbox
  apply_actor_to_mailbox_kept d parent b finishes fuel s t h =
      let run =
        apply (context_host program d.actor b) program.double_checks program.ensure_text fuel s in
      let (r, ran, rest) = >>=-eq-ok (tried program s run) (λ r. applied program d parent r) h in
      k.trans
        (tried_kept run s r
          (λ (u, out).
            apply_kept program k d.actor b finishes program.double_checks program.ensure_text fuel s
              u out)
          ran)
        (applied_kept d parent r t rest)
