-- ===== src/Context/Runs/Reached.antt =====
-- libyaaf/context.h: what holds of every context that is reached.
use yaaf.Common.{some, ◌≡◌, refl, List, arith}
use yaaf.Common.Outcomes.{ok}
use yaaf.Context.State.{Manager, Context, Program, UserTask}
use yaaf.Context.Sound.{HasRoom, IsSound, Evolves, Evolves-trans, Evolves-same}
use yaaf.Context.Sound.Adding.{add_actor-Evolves}
use yaaf.Context.Sound.Stopping.{stop_actor-Evolves}
use yaaf.Context.Sound.Sending.{send_envelope-Evolves, publish_to_exchange-Evolves}
use yaaf.Context.Sound.Exchanging.{create_exchange-Evolves, subscribe_to_exchange-Evolves}
use yaaf.Context.Sound.Tasks.{run_task-Evolves}
use yaaf.Context.Sound.Lifetime.{start-IsSound, stop-Evolves}
use yaaf.Context.Sound.Working.{mailbox_worker-Evolves}
use yaaf.Context.Worker.{LockAnswers, Others, mailbox_worker}
use yaaf.Context.Worker.Total.{mailbox_worker-total}
use yaaf.Context.Runs.{
  taken, Step, Reach, adds, stops_actor, sends, creates, subscribes, publishes, works, runs, stops,
  began, later,
}

module _ {H : Type 0} (program : Program H) where
  taken-Evolves : (before after : List UserTask) (s : Context H) → Evolves s (taken before after s)
  taken-Evolves before after s =
      Evolves-same
        (record {
          next_actor_id = refl;
          actors = refl;
          id_by_name = refl;
          mboxes = refl;
          exchanges = refl;
          next_box = refl;
        })
        (omega arith) (λ f. f)

  pub Step-Evolves : (s t : Context H) → Step program s t → Evolves s t
  Step-Evolves s t (adds n parent a addr h) = add_actor-Evolves program n parent a s t addr h
  Step-Evolves s t (stops_actor addr h) = stop_actor-Evolves program addr s t h
  Step-Evolves s t (sends target e h) = send_envelope-Evolves program target e s t h
  Step-Evolves s t (creates owner name) = create_exchange-Evolves owner name s
  Step-Evolves s t (subscribes target name) = subscribe_to_exchange-Evolves target name s
  Step-Evolves s t (publishes name e h) = publish_to_exchange-Evolves name e s t h
  Step-Evolves s t (works l others taking h) = mailbox_worker-Evolves l others s t taking h
  Step-Evolves s t (runs fuel before after k is h) =
      Evolves-trans (taken-Evolves before after s)
        (run_task-Evolves program fuel k (taken before after s) t h)
  Step-Evolves s t (stops h) = stop-Evolves program s t h

  -- In every context that is reached from `start` by calls of its users, rounds of `mailbox_worker`,
  -- tasks of actors and `stop`, in any order, while fewer calls of virtual methods were made than
  -- there are ids, the registry is well formed, the next id exceeds the number of these calls by at
  -- most one, every waiting envelope carries a value, and no name has two exchanges.
  pub Reach-IsSound : (s : Context H) → Reach program s → HasRoom s → IsSound s
  Reach-IsSound s (began self_id name root usr sys h) room =
      start-IsSound program self_id name root usr sys s h room
  Reach-IsSound t (later {s} r step) room =
      let h = Step-Evolves s t step in
      h.sound room (Reach-IsSound s r (omega (arith, room, h.grows)))

  -- In every context that is reached from `start` while ids last and that has a thread manager, a
  -- round of `mailbox_worker`, with whatever locks it gets and whatever other threads do between its
  -- looks at an actor and at a mailbox, ends without a fault.
  pub mailbox_worker-Reach :
      (l : LockAnswers) (others : Others H) (m : Manager) (s : Context H)
      → Reach program s
      → HasRoom s
      → s.thread_manager ≡ some m
      → (t : Context H) × (mailbox_worker l others s ≡ ok t)
  mailbox_worker-Reach l others m s r room there =
      mailbox_worker-total others m l s room (Reach-IsSound s r room) there
