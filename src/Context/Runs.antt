-- ===== src/Context/Runs.antt =====
-- libyaaf/context.h: a context from its start on, as its users, its worker and its actors' tasks act on
-- it in any order, one whole operation after another.
pub mod Reached
pub mod Exclusive
pub mod Interleaved
pub mod Gone
use yaaf.Common.{ℕ, ◌≡◌, List, ◌∷◌, ◌++◌, Str}
use yaaf.Common.Outcomes.{ok}
use yaaf.Address.{Address}
use yaaf.Payload.{Envelope}
use yaaf.Context.State.{Context, Program, ActorPtr, UserTask}
use yaaf.Context.Add.{add_actor}
use yaaf.Context.Stop.{stop_actor}
use yaaf.Context.Send.{send_envelope}
use yaaf.Context.Exchanges.{create_exchange, subscribe_to_exchange, publish_to_exchange}
use yaaf.Context.Worker.{LockAnswers, Others, mailbox_worker}
use yaaf.Context.Supervision.{run_task}
use yaaf.Context.Lifecycle.{construct, start, stop}
use yaaf.Context.Sound.Scanning.{IsTaking}

-- A user thread takes the task `k`, which stands between `before` and `after`.
abbrev pub taken : {H : Type 0} → List UserTask → List UserTask → Context H → Context H
taken before after s = record s { posted = before ++ after }

pub data Step {H : Type 0} (program : Program H) (s : Context H) : Context H → Type 0 where
  adds :
      (n : Str) (parent : Address) (a : ActorPtr) (addr : Address) {t : Context H}
      → add_actor program n parent a s ≡ ok (addr, t)
      → Step program s t
  stops_actor :
      (addr : Address) {t : Context H} → stop_actor program addr s ≡ ok t → Step program s t
  sends :
      (target : Address) (e : Envelope H) {t : Context H}
      → send_envelope program target e s ≡ ok t
      → Step program s t
  creates : (owner : Address) (name : Str) → Step program s (create_exchange owner name s)
  subscribes :
      (target : Address) (name : Str) → Step program s (subscribe_to_exchange target name s)
  publishes :
      (name : Str) (e : Envelope H) {t : Context H}
      → publish_to_exchange name e s ≡ ok t
      → Step program s t
  works :
      (l : LockAnswers) (others : Others H) {t : Context H}
      → IsTaking others
      → mailbox_worker l others s ≡ ok t
      → Step program s t
  runs :
      (fuel : ℕ) (before after : List UserTask) (k : UserTask) {t : Context H}
      → s.posted ≡ before ++ k ∷ after
      → run_task program fuel k (taken before after s) ≡ ok t
      → Step program s t
  stops : {t : Context H} → stop program s ≡ ok t → Step program s t

-- `context`, then `start`, then anything.
pub data Reach {H : Type 0} (program : Program H) : Context H → Type 0 where
  began :
      (self_id : ℕ) (name : Str) (root usr sys : ActorPtr) {s : Context H}
      → start program root usr sys (construct self_id name) ≡ ok s
      → Reach program s
  later : {s t : Context H} → Reach program s → Step program s t → Reach program t

-- What a context may become.
pub data Later {H : Type 0} (program : Program H) (s : Context H) : Context H → Type 0 where
  at_once : Later program s s
  further : {t u : Context H} → Later program s t → Step program t u → Later program s u
