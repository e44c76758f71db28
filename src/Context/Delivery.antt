-- ===== src/Context/Delivery.antt =====
-- libyaaf/context.cpp: the way of an envelope from `send_envelope` over `mailbox_worker` to the handler.
use yaaf.Common.{
  if◌then◌else◌, Str, ℕ, ◌+◌, ◌<◌, ◌≡◌, refl, ap, ◌∙◌, true, false, suc, Option, none, some, List,
  [], ◌∷◌, ◌++◌, nat_eq, str_eq, nat_beq_iff, ◌==◌, length, length-append, lookup, All, arith,
  beq_refl, inl, inr,
}
use yaaf.Common.Outcomes.{Outcome, thrown, null_deref, out_of_fuel, >>=-cong, ok, ◌>>=◌}
use yaaf.Address.{IdT, Address, null_name, no_id, id_empty}
use yaaf.Payload.{Envelope, IsFilled}
use yaaf.Mailbox.{Mailbox, mailbox_empty}
use yaaf.Actor.{ActorActionWhenError, reinit, stop, escalate, resume, normal, with_error, except}
use yaaf.Context.Stop.{stop_actor_impl_safety}
use yaaf.Context.Supervision.Caught.{tried-deliver}
use yaaf.Actor.Delivery.{HostLaws, IsQuiet, deliver, settled, apply-deliver}
use yaaf.Context.State.{
  Context, Program, Description, BoxPtr, ActorPtr, apply_mail, accepting, update, on_child_status,
  on_child_error,
}
use yaaf.Context.Add.{user_post}
use yaaf.Context.Send.{send_envelope}
use yaaf.Context.Exchanges.Topics.{send_envelope_lem}
use yaaf.Context.Worker.{take_mail, post_apply, parent_actor}
use yaaf.Context.Worker.Exclusive.{quiet, locked, take_mail_cases}
use yaaf.Context.Supervision.{
  start, ask, escalation, on_actor_error, context_host, tried, applied, apply_actor_to_mailbox,
  run_task,
}
use yaaf.Context.Registry.{IsRegistry}
use yaaf.Context.Registry.Same.{SameMaps-IsRegistry}
use yaaf.Context.Sound.Sending.{boxes-SameMaps, All-IsFilled-snoc}
use yaaf.Context.Runs.{taken}

mailbox_empty-snoc :
    {H : Type 0} (es : List (Envelope H)) (e : Envelope H)
    → mailbox_empty (record { dqueue = es ++ e ∷ [] }) ≡ false
unfolding mailbox_empty
mailbox_empty-snoc [] e = refl
mailbox_empty-snoc (x ∷ es) e = refl

module _ {H : Type 0} (program : Program H) where
  context_host-HostLaws : (a : ActorPtr) (b : BoxPtr) → HostLaws (context_host program a b)
  unfolding context_host
  context_host-HostLaws a b = record {
    actor-set_actor = λ o s. rw (beq_refl a) refl;
    mailbox-set_mailbox = λ mb s. rw (beq_refl b) refl;
    mailbox-set_actor = λ o s. refl;
  }

  -- What becomes of a decision on an actor whose handler has thrown.
  abbrev pub carried_out :
      ActorActionWhenError → Description → ActorPtr → Context H → Outcome (Context H)
  carried_out reinit d p s =
      stop_actor_impl_safety program d.address except s >>= λ t. start program d.actor t
  carried_out stop d p s = stop_actor_impl_safety program d.address except s
  carried_out escalate d p s = ok s
  carried_out resume d p s =
      ok (record s { events = on_child_status p d.address with_error ∷ s.events })

  -- The decision of a parent is carried out; if it is ESCALATE, that of the ancestors that are asked then.
  abbrev pub answered :
      ActorActionWhenError → Description → ActorPtr → Context H → Outcome (Context H)
  answered reinit d p s = carried_out reinit d p s
  answered stop d p s = carried_out stop d p s
  answered resume d p s = carried_out resume d p s
  answered escalate d p s = escalation program (suc s.next_actor_id) escalate d s >>= λ (action, t).
      carried_out action d p t

  -- What follows in the settled context: the parent is told that all went well, or, after an exception,
  -- decides; an actor with no parent is stopped then.
  abbrev pub dealt : Description → Option ActorPtr → Context H × Option Str → Outcome (Context H)
  dealt d none (s, none) = ok s
  dealt d (some p) (s, none) =
      ok (record s { events = on_child_status p d.address normal ∷ s.events })
  dealt d none (s, some what) = stop_actor_impl_safety program d.address except s
  dealt d (some p) (s, some what) =
      answered (program.decides p s.events d.address) d p
        (record s { events = on_child_error p d.address ∷ s.events })

  carried_out-on_actor_error :
      (action : ActorActionWhenError) (d : Description) (p : ActorPtr) (s : Context H)
      → on_actor_error program action d p s ≡ carried_out action d p s
  unfolding on_actor_error
  carried_out-on_actor_error reinit d p s = refl
  carried_out-on_actor_error stop d p s = refl
  carried_out-on_actor_error escalate d p s = refl
  carried_out-on_actor_error resume d p s = refl

  answered-escalation :
      (action : ActorActionWhenError) (d : Description) (p : ActorPtr) (s : Context H)
      → (escalation program (suc s.next_actor_id) action d s >>= λ (decided, t).
          on_actor_error program decided d p t)
        ≡ answered action d p s
  unfolding escalation
  answered-escalation reinit d p s = carried_out-on_actor_error reinit d p s
  answered-escalation stop d p s = carried_out-on_actor_error stop d p s
  answered-escalation resume d p s = carried_out-on_actor_error resume d p s
  answered-escalation escalate d p s =
      >>=-cong (escalation program (suc s.next_actor_id) escalate d s)
        (λ (action, t). on_actor_error program action d p t)
        (λ (action, t). carried_out action d p t)
        (λ (action, t) run. carried_out-on_actor_error action d p t)

  dealt-applied :
      (d : Description) (parent : Option ActorPtr) (r : Context H × Option Str)
      → applied program d parent r ≡ dealt d parent r
  unfolding applied ask
  dealt-applied d none (s, none) = refl
  dealt-applied d (some p) (s, none) = refl
  dealt-applied d none (s, some what) = refl
  dealt-applied d (some p) (s, some what) =
      answered-escalation (program.decides p s.events d.address) d p
        (record s { events = on_child_error p d.address ∷ s.events })

  -- What a task for the actor does: the contract of `apply`, and what follows.
  abbrev pub delivered :
      Description → Option ActorPtr → BoxPtr → List (Envelope H) → Context H → Outcome (Context H)
  delivered d parent b es s = deliver (context_host program d.actor b) es s >>= λ r.
      dealt d parent (settled (context_host program d.actor b) r)

  -- The actor of the parent, if the actor has one.
  abbrev pub parent_of : Description → Context H → Option ActorPtr
  parent_of d s =
      if d.parent == no_id
      then none
      else elim (lookup d.parent s.actors) [ none ↦ none | some p ↦ some p.actor ]

  -- A task to apply a busy actor to a mailbox with mail.
  run_task-delivered :
      (fuel : ℕ) (d : Description) (parent : Option ActorPtr) (b : BoxPtr) (s : Context H)
      (es : List (Envelope H))
      → IsQuiet (context_host program d.actor b)
      → (s.boxes b).dqueue ≡ es
      → 0 < length es
      → All IsFilled es
      → (s.objects d.actor).busy ≡ true
      → length es < fuel
      → run_task program fuel (apply_mail d parent b) s ≡ delivered d parent b es s
  unfolding run_task apply_actor_to_mailbox context_host
  run_task-delivered fuel d parent b s [] calm mail some_mail filled held enough =
      absurd (omega arith)
  run_task-delivered fuel d parent b s (e ∷ es) calm mail some_mail filled held enough =
      let h = context_host program d.actor b in
      ap (λ m. tried program s m >>= λ r. applied program d parent r)
        (apply-deliver h (context_host-HostLaws d.actor b) calm program.double_checks
          program.ensure_text fuel s e es (ap (λ q. record { dqueue = q }) mail) filled held enough)
      ∙ ap (λ m. m >>= λ r. applied program d parent r) (tried-deliver program d.actor b (e ∷ es) s)
      ∙ dealt-deliver (deliver h (e ∷ es) s)
    where
      dealt-deliver :
          (m : Outcome (Context H × Option Str))
          → ((m >>= λ r. ok (settled (context_host program d.actor b) r)) >>= λ r.
              applied program d parent r)
            ≡ (m >>= λ r. dealt d parent (settled (context_host program d.actor b) r))
      dealt-deliver (ok r) = dealt-applied d parent (settled (context_host program d.actor b) r)
      dealt-deliver (thrown what) = refl
      dealt-deliver null_deref = refl
      dealt-deliver out_of_fuel = refl

  -- The worker finds the actor of the parent.
  parent_of-found :
      (i : IdT) (d : Description) (s : Context H)
      → IsRegistry s
      → lookup i s.actors ≡ some d
      → parent_actor (id_empty d.parent) (lookup d.parent s.actors) ≡ ok (parent_of d s)
  unfolding parent_actor id_empty
  parent_of-found i d s v live = elim (v.family i d live) [
    | inl root ↦ ground (arith, root)
    | inr (p, there, _) ↦ ground (arith, there)
  ]

  -- The worker's look at the mailbox of a free actor with mail.
  take_mail-posted :
      (i : IdT) (d : Description) (b : BoxPtr) (s : Context H)
      → IsRegistry s
      → s.thread_manager ≡ some accepting
      → lookup i s.actors ≡ some d
      → (s.objects d.actor).busy ≡ false
      → mailbox_empty (s.boxes b) ≡ false
      → (s2 : Context H) × (take_mail quiet d b s ≡ ok s2)
        × (s2.posted ≡ s.posted ++ apply_mail d (parent_of d s) b ∷ [])
        × (s2.boxes b ≡ s.boxes b)
        × ((s2.objects d.actor).busy ≡ true)
  unfolding post_apply user_post
  take_mail-posted i d b s v there live free full =
      let parent = parent_of d s in
      let found = parent_of-found i d s v live in
      elim (take_mail_cases d b s) [
        | inl (held, _) ↦ absurd (ground (arith, held, free))
        | inr (_, run) ↦
            let u = locked d s in
            let s2 : Context H = record u {
              boxes = update u.boxes b (u.boxes b);
              posted = u.posted ++ apply_mail d parent b ∷ [];
            } in
            (
              s2,
              run ∙ rw (full, found, there) refl,
              refl,
              ground (arith, nat_beq_iff b b),
              ground (arith, nat_beq_iff d.actor d.actor),
            )
      ]

  -- On a well-formed context with a thread manager that takes tasks, let an actor be registered and free,
  -- let its mailbox hold envelopes that carry values, and let its handler leave this mailbox alone. Then
  -- `send_envelope` of an envelope that carries a value, where target and sender have path names other
  -- than "null", succeeds; the worker's look at the mailbox posts one task; and the task, with fuel above
  -- the number of envelopes, hands the actor what was waiting and then this envelope, up to the first
  -- exception; the actor is free then and its status tells of the outcome. Without an exception the actor
  -- of the parent, if there is one, is told so; with one, the parent decides, and what it has decided is
  -- done, or, without a parent, the actor is stopped.
  pub send_envelope-run_task :
      (target : Address) (e : Envelope H) (d : Description) (b : BoxPtr) (fuel : ℕ) (s : Context H)
      → IsRegistry s
      → s.thread_manager ≡ some accepting
      → lookup target.id s.actors ≡ some d
      → lookup target.id s.mboxes ≡ some b
      → (target.pathname == null_name) ≡ false
      → (e.sender.pathname == null_name) ≡ false
      → IsFilled e
      → All IsFilled (s.boxes b).dqueue
      → (s.objects d.actor).busy ≡ false
      → IsQuiet (context_host program d.actor b)
      → length (s.boxes b).dqueue + 1 < fuel
      → (s1 s2 : Context H) × (send_envelope program target e s ≡ ok s1)
        × (take_mail quiet d b s1 ≡ ok s2)
        × (s2.posted ≡ s.posted ++ apply_mail d (parent_of d s) b ∷ [])
        × (run_task program fuel (apply_mail d (parent_of d s) b) (taken s.posted [] s2)
            ≡ delivered d (parent_of d s) b ((s.boxes b).dqueue ++ e ∷ []) (taken s.posted [] s2))
  send_envelope-run_task target e d b fuel s v there live housed named signed has filled free calm
        enough =
      let es = (s.boxes b).dqueue ++ e ∷ [] in
      let (boxes, sent, last, _) = send_envelope_lem program target e s b has named signed housed in
      let s1 : Context H = record s { boxes = boxes } in
      let (s2, took, posted, kept, busy) =
        take_mail-posted target.id d b s1 (SameMaps-IsRegistry (boxes-SameMaps s boxes) v) there
          live free
          (ap (λ (q : List (Envelope H)). mailbox_empty (record { dqueue = q })) last
            ∙ mailbox_empty-snoc (s.boxes b).dqueue e) in
      (
        s1,
        s2,
        sent,
        took,
        posted,
        run_task-delivered fuel d (parent_of d s) b (taken s.posted [] s2) es calm
            (ap (λ (m : Mailbox H). m.dqueue) kept ∙ last)
            (omega (arith, length-append (s.boxes b).dqueue (e ∷ [])))
            (All-IsFilled-snoc (s.boxes b).dqueue e filled has) busy
            (omega (arith, length-append (s.boxes b).dqueue (e ∷ []), enough)),
      )
