-- ===== src/Tests/Exchanges.antt =====
-- Mail and exchanges of a context that was started.
use yaaf.Common.{
  false, ℕ, ◌<◌, ◌≡◌, ◌≢◌, refl, true, some, List, [], ◌∷◌, ◌++◌, lookup, insert, adjust, nat_eq,
  str_eq, arith,
}
use yaaf.Common.Outcomes.{ok}
use yaaf.Address.{IdT}
use yaaf.Payload.{no_envelope}
use yaaf.Mailbox.{Mailbox, mailbox_empty}
use yaaf.Context.State.{Context, Description, Program, BoxPtr, update}
use yaaf.Context.Worker.{drain, scan}
use yaaf.Context.Worker.Relay.{all_copies, drain-all_copies}
use yaaf.Context.Worker.Exclusive.{IsExclusive, quiet, applies}
use yaaf.Context.Worker.Posting.{scan-one_task}
use yaaf.Context.State.{accepting}
use yaaf.Context.Lifecycle.{construct, start}
use yaaf.Tests.Data.{idle, started, started-IsRegistry, mail, child_name, value_or}

abbrev checked : Program ℕ
checked = record idle { double_checks = true; ensure_text = child_name }

usr_box : lookup 2 started.mboxes ≡ some 1
unfolding started start construct lookup insert adjust
usr_box = refl

usr_there : (d : Description) × (lookup 2 started.actors ≡ some d)
unfolding started start construct lookup insert adjust
usr_there = (_, refl)

-- Two envelopes wait in the exchange's mailbox 5.
abbrev published : Context ℕ
published = record started {
  boxes = update started.boxes 5 (record { dqueue = mail 1 ∷ mail 2 ∷ [] });
}

few_boxes : started.next_box < 6
unfolding started start construct lookup insert adjust
few_boxes = omega arith

drain-all_copies_example :
    (bx : BoxPtr → Mailbox ℕ) × (drain 3 5 (2 ∷ 3 ∷ 2 ∷ []) no_envelope published
      ≡ ok (record published { boxes = bx }))
    × ((bx 5).dqueue ≡ [])
    × ((b : BoxPtr)
        → b ≢ 5
        → (bx b).dqueue
          ≡ (published.boxes b).dqueue
            ++ all_copies published.mboxes b (2 ∷ 3 ∷ 2 ∷ []) (mail 1 ∷ mail 2 ∷ []))
drain-all_copies_example =
    drain-all_copies (mail 1 ∷ mail 2 ∷ []) 5 (2 ∷ 3 ∷ 2 ∷ []) no_envelope published refl
      (refl, (refl, tt))
      (λ i e. absurd (omega (arith, started-IsRegistry.box_bound i 5 e, few_boxes)))

-- "usr" has mail, and the worker looks at the mailboxes once.
abbrev mailed : Context ℕ
mailed = record started { boxes = update started.boxes 1 (record { dqueue = mail 1 ∷ [] }) }

mailed-IsExclusive : IsExclusive mailed
unfolding started start construct applies lookup insert adjust
mailed-IsExclusive a = omega arith

unfoldable scanned : Context ℕ × List IdT
unfolding scan
scanned = value_or (mailed, []) (scan quiet mailed.mboxes (mailed, []))

scanned_run : scan quiet mailed.mboxes (mailed, []) ≡ ok scanned
unfolding scanned scan mailbox_empty started start construct lookup insert adjust
scanned_run = refl

mailed_usr :
    (mailed.thread_manager ≡ some accepting)
    × ((mailed.objects usr_there.0.actor).busy ≡ false)
    × (mailbox_empty (mailed.boxes 1) ≡ false)
unfolding mailbox_empty usr_there started start construct lookup insert adjust
mailed_usr = (refl, refl, refl)

scan-one_task_example :
    ((scanned.0.objects usr_there.0.actor).busy ≡ true)
    × (applies usr_there.0.actor scanned.0.posted ≡ 1)
scan-one_task_example =
    scan-one_task mailed scanned.0 scanned.1 2 1 usr_there.0 mailed_usr.0 mailed-IsExclusive usr_box
      usr_there.1 mailed_usr.1 mailed_usr.2 scanned_run
