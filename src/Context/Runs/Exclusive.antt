-- ===== src/Context/Runs/Exclusive.antt =====
-- libyaaf/context.cpp: in every run an actor has at most one task.
use yaaf.Common.{
  ℕ, ◌≡◌, refl, subst, Bool, true, false, List, [], Str, if◌then◌else◌, ◌&&◌, nat_eq, str_eq, arith,
}
use yaaf.Common.Outcomes.{ok, >>=-eq-ok, ok-injective}
use yaaf.Address.{IdT, Address}
use yaaf.Actor.{BaseActor}
use yaaf.Context.State.{Context, Program, ActorPtr}
use yaaf.Context.Lifecycle.{construct, stop, stop_each, cleared}
use yaaf.Context.Worker.{LockAnswers, relay, scan, scan_and_sweep, sweep, clean, mailbox_worker}
use yaaf.Context.Worker.Exclusive.{applies, IsExclusive, quiet, scan-IsExclusive}
use yaaf.Context.Frame.Starting.{begin_kept}
use yaaf.Context.Frame.Relaying.{relay_kept}
use yaaf.Context.Calm.{
  Calm, Calm-refl, Calm-same, Calm-IsExclusive, Calm-Frame, Calm-BoxFrame, stop_actor-Calm,
}
use yaaf.Context.Runs.{
  Step, Reach, adds, stops_actor, sends, creates, subscribes, publishes, works, runs, stops, began,
  later,
}
use yaaf.Context.Calm.Tasks.{run_task-IsExclusive}

module _ {H : Type 0} {program : Program H} where
  -- No other thread interferes with a round of the worker.
  abbrev pub IsUndisturbed : {s t : Context H} → Step program s t → Type 0
  IsUndisturbed (adds n parent a addr h) = Unit
  IsUndisturbed (stops_actor addr h) = Unit
  IsUndisturbed (sends target e h) = Unit
  IsUndisturbed (creates owner name) = Unit
  IsUndisturbed (subscribes target name) = Unit
  IsUndisturbed (publishes name e h) = Unit
  IsUndisturbed (works l others taking h) = others ≡ quiet
  IsUndisturbed (runs fuel before after k is h) = Unit
  IsUndisturbed (stops h) = Unit

  abbrev pub IsOrderly : {s : Context H} → Reach program s → Type 0
  IsOrderly (began self_id name root usr sys h) = Unit
  IsOrderly (later r step) = IsOrderly r × IsUndisturbed step

module _ {H : Type 0} (program : Program H)
    (steady : (a : ActorPtr) (o : BaseActor) → (program.stops a o).busy ≡ o.busy) where
  swept-IsExclusive :
      (b : Bool) (s : Context H) → IsExclusive s → IsExclusive (if b then sweep s else s)
  unfolding sweep
  swept-IsExclusive false s v = v
  swept-IsExclusive true s v = v

  cleaned-IsExclusive :
      (b : Bool) (ids : List IdT) (s : Context H)
      → IsExclusive s
      → IsExclusive (if b then clean ids s else s)
  unfolding clean
  cleaned-IsExclusive false ids s v = v
  cleaned-IsExclusive true ids s v = v

  scanned_if-IsExclusive :
      (b : Bool) (l : LockAnswers) (s t : Context H)
      → (if b then scan_and_sweep l quiet s else ok s) ≡ ok t
      → IsExclusive s
      → IsExclusive t
  unfolding scan_and_sweep
  scanned_if-IsExclusive false l s t h v = subst IsExclusive (ok-injective h) v
  scanned_if-IsExclusive true l s t h v =
      let ((u, ids), scanned, last) = >>=-eq-ok (scan quiet s.mboxes (s, [])) _ h in
      let w = scan-IsExclusive s.mboxes s u [] ids v scanned in
      subst IsExclusive (ok-injective last) (
        cleaned-IsExclusive l.registry_again ids (if l.exchange then sweep u else u)
          (swept-IsExclusive l.exchange u w))

  relayed_if-Calm :
      (b : Bool) (s t : Context H) → (if b then relay s.exchanges s else ok s) ≡ ok t → Calm s t
  relayed_if-Calm false s t h = subst (Calm s) (ok-injective h) (Calm-refl s)
  relayed_if-Calm true s t h = relay_kept Calm-BoxFrame s.exchanges s t h

  mailbox_worker-IsExclusive :
      (l : LockAnswers) (s t : Context H)
      → mailbox_worker l quiet s ≡ ok t
      → IsExclusive s
      → IsExclusive t
  unfolding mailbox_worker
  mailbox_worker-IsExclusive l s t h v =
      let (u, relayed, rest) =
        >>=-eq-ok (if l.exchange_shared && l.registry then relay s.exchanges s else ok s) _ h in
      scanned_if-IsExclusive l.registry_shared l u t rest
        (Calm-IsExclusive (relayed_if-Calm (l.exchange_shared && l.registry) s u relayed) v)

  stop-IsExclusive : (s t : Context H) → stop program s ≡ ok t → IsExclusive t
  unfolding stop cleared applies
  stop-IsExclusive s t e a =
      let is : cleared program (stop_each program s.actors s) ≡ t = ground (arith, e) in
      subst IsExclusive is (λ a. ground arith) a

  construct-IsExclusive : (self_id : ℕ) (name : Str) → IsExclusive {H = H} (construct self_id name)
  unfolding construct applies
  construct-IsExclusive self_id name a = ground arith

  roots-Calm :
      (s : Context H) (r u y : Address) → Calm s (record s { root = r; usr_root = u; sys_root = y })
  roots-Calm s r u y = Calm-same refl refl

  Step-IsExclusive :
      (s t : Context H) (step : Step program s t)
      → IsUndisturbed step
      → IsExclusive s
      → IsExclusive t
  Step-IsExclusive s t (adds n parent a addr h) alone v =
      Calm-IsExclusive ((Calm-Frame program steady).adds n parent a s t addr h) v
  Step-IsExclusive s t (stops_actor addr h) alone v =
      Calm-IsExclusive (stop_actor-Calm program steady addr s t h) v
  Step-IsExclusive s t (sends target e h) alone v =
      Calm-IsExclusive ((Calm-Frame program steady).sends target e s t h) v
  Step-IsExclusive s t (creates owner name) alone v =
      Calm-IsExclusive ((Calm-Frame program steady).creates owner name s) v
  Step-IsExclusive s t (subscribes target name) alone v =
      Calm-IsExclusive ((Calm-Frame program steady).subscribes target name s) v
  Step-IsExclusive s t (publishes name e h) alone v =
      Calm-IsExclusive ((Calm-Frame program steady).publishes name e s t h) v
  Step-IsExclusive s t (works l others taking h) alone v =
      mailbox_worker-IsExclusive l s t (subst (λ o. mailbox_worker l o s ≡ ok t) alone h) v
  Step-IsExclusive s t (runs fuel before after k is h) alone v =
      run_task-IsExclusive program steady fuel before after k s t is h v
  Step-IsExclusive s t (stops h) alone v = stop-IsExclusive s t h

  -- In every run in which no other thread interferes with a round of `mailbox_worker`, and if no
  -- `on_stop` changes whether an actor is busy, a free actor has no task waiting and a busy one has at
  -- most one.
  pub Reach-IsExclusive : (s : Context H) (r : Reach program s) → IsOrderly r → IsExclusive s
  Reach-IsExclusive s (began self_id name root usr sys h) orderly =
      Calm-IsExclusive
        (begin_kept program (Calm-Frame program steady) roots-Calm root usr sys
          (construct self_id name) s h)
        (construct-IsExclusive self_id name)
  Reach-IsExclusive t (later {s} r step) (orderly, alone) =
      Step-IsExclusive s t step alone (Reach-IsExclusive s r orderly)
