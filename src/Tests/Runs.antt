-- ===== src/Tests/Runs.antt =====
-- Runs of a context that was started.
use yaaf.Common.{ℕ, ◌≡◌, true, some, refl, [], lookup, insert, adjust, arith}
use yaaf.Context.Add.{add_actor}
use yaaf.Context.Lifecycle.{construct, start}
use yaaf.Context.Sound.{HasRoom, IsSound}
use yaaf.Context.Runs.{Reach, adds, works, began, later}
use yaaf.Common.Outcomes.{ok}
use yaaf.Context.State.{Context, accepting}
use yaaf.Context.Worker.{LockAnswers, mailbox_worker}
use yaaf.Context.Worker.Exclusive.{quiet, IsExclusive}
use yaaf.Mailbox.{mailbox_empty}
use yaaf.Context.Runs.Exclusive.{Reach-IsExclusive}
use yaaf.Context.Runs.Reached.{mailbox_worker-Reach, Reach-IsSound}
use yaaf.Tests.Data.{
  value_or, idle, started, started_run, child_name, usr_address, added, added_run,
}

-- An actor is added to a started context.
added-Reach : Reach idle added.1
added-Reach =
    later (began 7 [] 10 11 12 started_run) (adds child_name usr_address 13 added.0 added_run)

added-HasRoom : HasRoom added.1
unfolding added add_actor yaaf.Tests.Data.started start construct lookup insert adjust
added-HasRoom = omega arith

Reach-IsSound_example : IsSound added.1
Reach-IsSound_example = Reach-IsSound idle added.1 added-Reach added-HasRoom

abbrev all_locks : LockAnswers
all_locks = record {
  exchange_shared = true;
  registry = true;
  registry_shared = true;
  exchange = true;
  registry_again = true;
}

added_manager : added.1.thread_manager ≡ some accepting
unfolding added add_actor yaaf.Tests.Data.started start construct lookup insert adjust
added_manager = refl

mailbox_worker-Reach_example : (t : Context ℕ) × (mailbox_worker all_locks quiet added.1 ≡ ok t)
mailbox_worker-Reach_example =
    mailbox_worker-Reach idle all_locks quiet accepting added.1 added-Reach added-HasRoom
      added_manager

-- A round of the worker after it.
unfoldable worked : Context ℕ
unfolding mailbox_worker
worked = value_or added.1 (mailbox_worker all_locks quiet added.1)

worked_run : mailbox_worker all_locks quiet added.1 ≡ ok worked
unfolding worked mailbox_worker mailbox_empty added add_actor yaaf.Tests.Data.started start
    construct lookup insert adjust
worked_run = refl

worked-Reach : Reach idle worked
worked-Reach = later added-Reach (works all_locks quiet (λ b m filled. filled) worked_run)

Reach-IsExclusive_example : IsExclusive worked
unfolding worked-Reach added-Reach
Reach-IsExclusive_example =
    Reach-IsExclusive idle (λ a o. refl) worked worked-Reach ((tt, tt), refl)
