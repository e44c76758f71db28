-- ===== src/Examples/PingPong.antt =====
-- examples/ping_pong_example.cpp: two actors that send each other a number, each one more than it got.
pub mod Court
pub mod Opening
pub mod Strokes
pub mod Rally
pub mod Score
pub mod Volleys
use yaaf.Common.{
  ltb, ℕ, zero, suc, ◌+◌, ◌≡◌, true, if◌then◌else◌, Bool, some, List, [], ◌∷◌, Str, nat_eq, ◌==◌,
}
use yaaf.Common.Outcomes.{Outcome, ok, thrown, null_deref, out_of_fuel, ◌>>=◌}
use yaaf.Address.{Address, no_address}
use yaaf.Payload.{Payload, Envelope}
use yaaf.Payload.Typed.{Types, Holder, Messages, pack_value, cast}
use yaaf.Actor.{on_stop, default_on_child_error}
use yaaf.Context.State.{
  Context, Program, ActorPtr, UserTask, Event, action_handle, Answer, an_address, Method, returns,
  throws, crashes, calls, calls_send, calls_add,
}
use yaaf.Context.Add.{add_actor}
use yaaf.Context.Worker.{LockAnswers, mailbox_worker}
use yaaf.Context.Worker.Exclusive.{quiet}
use yaaf.Context.Supervision.{run_task}
use yaaf.Context.Lifecycle.{make_context, system_action_handle}

-- The only type of a message is `int`. Its values here are never negative; what would exceed `int_max`
-- is an overflow, which is undefined.
pub data MessageType : Type 0 where
  int : MessageType

abbrev pub int_max : ℕ
int_max = 2147483647

abbrev pub int_dec : (s t : MessageType) → Dec (s ≡ t)
int_dec int int = yes (λ i. int)

abbrev pub ints : Types
ints = record { Tag = MessageType; Val = λ t. ℕ; tag_dec = int_dec }

abbrev pub texts : Messages
texts = record { bad_cast = b'b' ∷ []; null_holder = b'n' ∷ [] }

abbrev pub Ball : Type 0
Ball = Holder ints

-- A payload with the number `v`.
abbrev pub ball : ℕ → Payload Ball
ball v = pack_value ints texts int v

-- The objects: those that the context makes itself, and the two players.
abbrev pub root_actor : ActorPtr
root_actor = 0

abbrev pub usr_actor : ActorPtr
usr_actor = 1

abbrev pub sys_actor : ActorPtr
sys_actor = 2

abbrev pub ping_actor : ActorPtr
ping_actor = 3

abbrev pub pong_actor : ActorPtr
pong_actor = 4

abbrev pub ping_name : Str
ping_name = b'p' ∷ b'i' ∷ b'n' ∷ b'g' ∷ []

abbrev pub pong_name : Str
pong_name = b'p' ∷ b'o' ∷ b'n' ∷ b'g' ∷ []

-- `e.payload.cast<int>()`, and what follows it.
with_int : Outcome ℕ → (ℕ → Method Ball) → Method Ball
with_int (ok v) next = next v
with_int (thrown what) next = throws what
with_int null_deref next = crashes
with_int out_of_fuel next = crashes

-- `ctx->send(a, v)`, if there is a context.
unfoldable pub send_int : Address → ℕ → Method Ball
send_int a v = calls (calls_send a (ball v)) (λ ans. returns)

-- `v + 1` is sent. An overflow is undefined, like a read through a null pointer.
unfoldable pub send_next : Address → ℕ → Method Ball
unfolding send_int
send_next a v = if ltb v int_max then send_int a (v + 1) else crashes

-- `pong_actor::action_handle`.
unfoldable pub pong_action_handle : Envelope Ball → Method Ball
unfolding with_int send_next cast
pong_action_handle e = with_int (cast ints texts int e.payload) (λ v. send_next e.sender v)

-- `ping_actor::action_handle`; `pings` is counted by `pings` below.
unfoldable pub ping_action_handle : Envelope Ball → Method Ball
unfolding with_int send_next cast
ping_action_handle e = with_int (cast ints texts int e.payload) (λ v. send_next e.sender v)

serve : Answer → Method Ball
unfolding send_int
serve (an_address pong_addr) = send_int pong_addr 0
serve ans = returns

-- `ping_actor::on_start`.
unfoldable pub ping_on_start : Method Ball
unfolding serve
ping_on_start = calls (calls_add pong_name pong_actor) (λ ans. serve ans)

-- The counter `pings`: how often the ping actor has handled an envelope.
unfoldable pub pings : List (Event Ball) → ℕ
pings [] = 0
pings (action_handle a e ∷ es) = (if a == ping_actor then 1 else 0) + pings es
pings (e ∷ es) = pings es

-- The actors of the program, in a build with `DOUBLE_CHECKS` or without.
abbrev pub game : Bool → Program Ball
game double_checks = record {
  double_checks = double_checks;
  ensure_text = [];
  stops = λ a o. on_stop o;
  decides = λ a events addr. default_on_child_error addr;
  starts = λ a events. if a == ping_actor then ping_on_start else returns;
  handles = λ a events e.
      if a == ping_actor
      then ping_action_handle e
      else if a == pong_actor
      then pong_action_handle e
      else returns;
}

module _ (double_checks : Bool) where
  -- `main`, up to its waiting: `make_context` and `make_actor<ping_actor>`.
  unfoldable pub main : ℕ → Outcome (Context Ball)
  unfolding make_context add_actor
  main self_id =
      make_context (game double_checks) root_actor usr_actor sys_actor self_id [] >>= λ s.
      add_actor (game double_checks) ping_name no_address ping_actor s >>= λ (addr, t). ok t

  -- `user_threads` is 1, so the tasks are run in the order in which they were posted. The worker acts at
  -- any time and takes any locks.
  pub data Play (self_id : ℕ) : Context Ball → Type 0 where
    began : {s : Context Ball} → main self_id ≡ ok s → Play self_id s
    works :
        {s t : Context Ball} (l : LockAnswers)
        → mailbox_worker l quiet s ≡ ok t
        → Play self_id s
        → Play self_id t
    runs :
        {s t : Context Ball} (fuel : ℕ) (k : UserTask) (ks : List UserTask)
        → s.posted ≡ k ∷ ks
        → run_task (game double_checks) fuel k (record s { posted = ks }) ≡ ok t
        → Play self_id s
        → Play self_id t

-- All locks are free.
abbrev pub all_locks : LockAnswers
all_locks = record {
  exchange_shared = true;
  registry = true;
  registry_shared = true;
  exchange = true;
  registry_again = true;
}

module _ (double_checks : Bool) where
  -- The user's thread takes the first task, if there is one.
  unfoldable pub run_first : ℕ → Context Ball → Outcome (Context Ball)
  run_first fuel s = elim s.posted [
    | [] ↦ ok s
    | k ∷ ks ↦ run_task (game double_checks) fuel k (record s { posted = ks })
  ]

  -- `main`, and the five `on_start`s.
  unfoldable pub serve_first : ℕ → Outcome (Context Ball)
  unfolding run_first
  serve_first self_id =
      main double_checks self_id
      >>= run_first 2
      >>= run_first 2
      >>= run_first 2
      >>= run_first 2
      >>= run_first 2

  -- A round of the worker, and the task that it posts.
  unfoldable pub volley : Context Ball → Outcome (Context Ball)
  unfolding run_first
  volley s = mailbox_worker all_locks quiet s >>= λ t. run_first 2 t

  unfoldable pub volleys : ℕ → Context Ball → Outcome (Context Ball)
  unfolding volley
  volleys zero s = ok s
  volleys (suc n) s = volley s >>= λ t. volleys n t
