-- ===== src/Context/Sound/Tasks.antt =====
-- libyaaf/context.cpp: what the user threads run, in any context.
use yaaf.Common.{ℕ, ◌≡◌}
use yaaf.Common.Outcomes.{ok}
use yaaf.Context.State.{Context, Program, UserTask, start_actor, apply_mail}
use yaaf.Context.Supervision.{run_task}
use yaaf.Context.Frame.Handling.{start_kept}
use yaaf.Context.Frame.Tasks.{apply_actor_to_mailbox_kept}
use yaaf.Context.Sound.{Evolves}
use yaaf.Context.Sound.Handling.{Evolves-Frame, finish-Evolves}

module _ {H : Type 0} (program : Program H) where
  pub run_task-Evolves :
      (fuel : ℕ) (k : UserTask) (s t : Context H) → run_task program fuel k s ≡ ok t → Evolves s t
  unfolding run_task
  run_task-Evolves fuel (start_actor a) s t h = start_kept program (Evolves-Frame program) a s t h
  run_task-Evolves fuel (apply_mail d parent b) s t h =
      apply_actor_to_mailbox_kept program (Evolves-Frame program) d parent b
        (finish-Evolves program d.actor b) fuel s t h
