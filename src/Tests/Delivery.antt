-- ===== src/Tests/Delivery.antt =====
-- Mail for "usr", whose handler does nothing, from `send_envelope` to the handler.
use yaaf.Common.{
  nat_eq, str_eq, Option-cases, inl, inr, All, ◌<◌, ◌+◌, ℕ, ◌≡◌, refl, false, some, [], ◌∷◌, ◌++◌,
  lookup, insert, adjust, length, arith,
}
use yaaf.Common.Outcomes.{ok}
use yaaf.Payload.{IsFilled}
use yaaf.Actor.Delivery.{IsQuiet}
use yaaf.Context.State.{Context, Description, ActorPtr, accepting, apply_mail}
use yaaf.Context.Send.{send_envelope}
use yaaf.Context.Worker.{take_mail}
use yaaf.Context.Worker.Exclusive.{quiet}
use yaaf.Context.Supervision.{context_host, run_task, handle, act}
use yaaf.Context.User.{run_method, run_alone}
use yaaf.Context.Lifecycle.{construct, start}
use yaaf.Context.Runs.{taken}
use yaaf.Context.Delivery.{parent_of, delivered, send_envelope-run_task}
use yaaf.Tests.Data.{idle, started, started-IsRegistry, usr_address, mail}

idle-IsQuiet : (a : ActorPtr) → IsQuiet (context_host idle a 1)
unfolding context_host handle act run_method run_alone
idle-IsQuiet a e s t ex h = elim (Option-cases (s.objects a).ctx) [
  | inl absent ↦ ground (arith, absent, h)
  | inr (uc, there) ↦ ground (arith, there, h)
]

usr_there :
    (d : Description) × (started.thread_manager ≡ some accepting)
    × (lookup 2 started.actors ≡ some d)
    × (lookup 2 started.mboxes ≡ some 1)
    × ((started.boxes 1).dqueue ≡ [])
    × ((started.objects d.actor).busy ≡ false)
unfolding started start construct lookup insert adjust
usr_there = (_, refl, refl, refl, refl, refl)

usr_room : length (started.boxes 1).dqueue + 1 < 5
usr_room = rw usr_there.4 (omega arith)

usr-IsFilled : All IsFilled (started.boxes 1).dqueue
usr-IsFilled = rw usr_there.4 tt

send_envelope-run_task_example :
    let parent = parent_of idle usr_there.0 started in
    (s1 s2 : Context ℕ) × (send_envelope idle usr_address (mail 7) started ≡ ok s1)
    × (take_mail quiet usr_there.0 1 s1 ≡ ok s2)
    × (s2.posted ≡ started.posted ++ apply_mail usr_there.0 parent 1 ∷ [])
    × (run_task idle 5 (apply_mail usr_there.0 parent 1) (taken started.posted [] s2)
        ≡ delivered idle usr_there.0 parent 1
            ((started.boxes 1).dqueue ++ mail 7 ∷ [])
            (taken started.posted [] s2))
send_envelope-run_task_example =
    send_envelope-run_task idle usr_address (mail 7) usr_there.0 1 5 started started-IsRegistry
      usr_there.1 usr_there.2 usr_there.3 refl refl refl usr-IsFilled usr_there.5
      (idle-IsQuiet usr_there.0.actor) usr_room
