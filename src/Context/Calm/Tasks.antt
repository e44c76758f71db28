-- ===== src/Context/Calm/Tasks.antt =====
-- libyaaf/context.cpp: a task concerns one actor alone.
use yaaf.Common.{
  ℕ, ◌+◌, ◌≡◌, refl, ap, ◌∙◌, false, Option, none, some, List, [], ◌∷◌, ◌++◌, Str, nat_eq, str_eq,
  nat_beq_iff, ◌==◌, arith,
}
use yaaf.Common.Outcomes.{ok}
use yaaf.Actor.{BaseActor, reset_busy, update_status}
use yaaf.Actor.Apply.{finish}
use yaaf.Context.State.{Context, Program, ActorPtr, BoxPtr, UserTask, start_actor, apply_mail}
use yaaf.Context.Worker.Exclusive.{applies, applies-append, IsExclusive}
use yaaf.Context.Supervision.{context_host, run_task}
use yaaf.Context.Frame.{Frame}
use yaaf.Context.Frame.Handling.{start_kept}
use yaaf.Context.Frame.Tasks.{apply_actor_to_mailbox_kept}
use yaaf.Context.Calm.{Calm, Calm-refl, Calm-Frame}
use yaaf.Context.Runs.{taken}

module _ {H : Type 0} (x : ActorPtr) where
  -- The actor `x` may have become busy or free.
  record CalmBut (s t : Context H) : Type 0 where
    busy : (a : ActorPtr) → (a == x) ≡ false → (t.objects a).busy ≡ (s.objects a).busy
    waiting : (a : ActorPtr) → applies a t.posted ≡ applies a s.posted

  but : {s t : Context H} → Calm s t → CalmBut s t
  but h = record { busy = λ a other. h.busy a; waiting = h.waiting }

  CalmBut-trans : {s t u : Context H} → CalmBut s t → CalmBut t u → CalmBut s u
  CalmBut-trans h k = record {
    busy = λ a other. k.busy a other ∙ h.busy a other;
    waiting = λ a. k.waiting a ∙ h.waiting a;
  }

module _ {H : Type 0} (program : Program H)
    (steady : (a : ActorPtr) (o : BaseActor) → (program.stops a o).busy ≡ o.busy) where
  CalmBut-Frame : (x : ActorPtr) → Frame program (CalmBut x)
  CalmBut-Frame x =
      let calm = Calm-Frame program steady in
      record {
        same = λ s. but x (Calm-refl s);
        trans = λ h k. CalmBut-trans x h k;
        adds = λ n parent a s t addr h. but x (calm.adds n parent a s t addr h);
        stops = λ reason addr s t h. but x (calm.stops reason addr s t h);
        sends = λ target e s t h. but x (calm.sends target e s t h);
        publishes = λ n e s t h. but x (calm.publishes n e s t h);
        creates = λ owner n s. but x (calm.creates owner n s);
        subscribes = λ target n s. but x (calm.subscribes target n s);
        called = λ s e. but x (calm.called s e);
        pops = λ b out e mb popped s got. but x (calm.pops b out e mb popped s got);
      }

  finish-CalmBut :
      (a : ActorPtr) (b : BoxPtr) (s : Context H) (out : Option Str)
      → CalmBut a s (finish (context_host program a b) (s, out)).0
  unfolding finish context_host update_status reset_busy
  finish-CalmBut a b s none = record {
    busy = λ c other. ground (arith, other);
    waiting = λ c. refl;
  }
  finish-CalmBut a b s (some what) = record {
    busy = λ c other. ground (arith, other);
    waiting = λ c. refl;
  }

  -- A task leaves the queue.
  taken-applies :
      (a : ActorPtr) (before after : List UserTask) (k : UserTask)
      → applies a (before ++ k ∷ after) ≡ applies a (before ++ after) + applies a (k ∷ [])
  unfolding applies
  taken-applies a before after k =
      omega (arith, applies-append a before (k ∷ after), applies-append a before after)

  pub run_task-IsExclusive :
      (fuel : ℕ) (before after : List UserTask) (k : UserTask) (s t : Context H)
      → s.posted ≡ before ++ k ∷ after
      → run_task program fuel k (taken before after s) ≡ ok t
      → IsExclusive s
      → IsExclusive t
  unfolding run_task applies
  run_task-IsExclusive fuel before after (start_actor x) s t is h v a =
      let calm = start_kept program (Calm-Frame program steady) x (taken before after s) t h in
      ground (
        arith,
        calm.busy a,
        calm.waiting a,
        v a,
        ap (applies a) is,
        taken-applies a before after (start_actor x),
      )
  run_task-IsExclusive fuel before after (apply_mail d parent b) s t is h v a =
      let calm =
        apply_actor_to_mailbox_kept program (CalmBut-Frame d.actor) d parent b
          (finish-CalmBut d.actor b) fuel (taken before after s) t h in
      ground (
        arith,
        calm.busy a,
        calm.waiting a,
        v a,
        ap (applies a) is,
        nat_beq_iff d.actor a,
        nat_beq_iff a d.actor,
        taken-applies a before after (apply_mail d parent b),
      )
