-- ===== src/Context/Lifecycle.antt =====
-- libyaaf/context.cpp: the constructor of `context`, `start` and `stop`, in a build without the network.
pub mod Laws
use yaaf.Common.{
  ℕ, true, if◌then◌else◌, none, some, List, [], ◌∷◌, ◌++◌, Str, ◌==◌, str_eq, is_some,
}
use yaaf.Common.Outcomes.{Outcome, ok, null_deref, ◌>>=◌}
use yaaf.Address.{IdT, no_address}
use yaaf.Payload.{Envelope}
use yaaf.Actor.{set_context}
use yaaf.Context.State.{
  Context, Description, ActorPtr, Program, on_stop, new_context, update, Method, returns,
}
use yaaf.Context.Add.{add_actor, to_string}

-- "system_", "root", "usr" and "sys"
abbrev pub system_prefix : Str
system_prefix = b's' ∷ b'y' ∷ b's' ∷ b't' ∷ b'e' ∷ b'm' ∷ b'_' ∷ []

abbrev pub root_name : Str
root_name = b'r' ∷ b'o' ∷ b'o' ∷ b't' ∷ []

abbrev pub usr_name : Str
usr_name = b'u' ∷ b's' ∷ b'r' ∷ []

abbrev pub sys_name : Str
sys_name = b's' ∷ b'y' ∷ b's' ∷ []

-- The constructor; `self_id` is what `_ctx_id.fetch_add(1)` gives.
unfoldable pub construct : {H : Type 0} → ℕ → Str → Context H
unfolding to_string
construct self_id name =
    new_context (if name == [] then system_prefix ++ to_string self_id else name)

module _ {H : Type 0} (program : Program H) where
  -- `start`, with the objects of `root_actor`, `usr_actor` and `sys_actor`. The task that runs
  -- `mailbox_worker` stays with the system's threads for good and is no part of the state.
  unfoldable pub start : ActorPtr → ActorPtr → ActorPtr → Context H → Outcome (Context H)
  unfolding add_actor
  start root usr sys s = add_actor program root_name no_address root s >>= λ (r, s1).
      add_actor program usr_name r usr (record s1 { root = r }) >>= λ (u, s2).
      add_actor program sys_name r sys (record s2 { usr_root = u }) >>= λ (y, s3).
      ok (record s3 { sys_root = y })

  -- `make_context`, for the context with the number `self_id`.
  unfoldable pub make_context : ActorPtr → ActorPtr → ActorPtr → ℕ → Str → Outcome (Context H)
  unfolding start construct
  make_context root usr sys self_id name = start root usr sys (construct self_id name)

  -- `on_stop`, and `usrcont = nullptr`, after which the actor's weak pointer to it is null too.
  unfoldable pub stop_each : List (IdT × Description) → Context H → Context H
  unfolding set_context
  stop_each [] s = s
  stop_each ((i, d) ∷ ds) s = stop_each ds (record s {
    objects =
        update s.objects d.actor (set_context none (program.stops d.actor (s.objects d.actor)));
    events = on_stop d.actor ∷ s.events;
  })

  unfoldable pub cleared : Context H → Context H
  cleared s = record s {
    thread_manager = none;
    actors = [];
    mboxes = [];
    id_by_name = [];
    stopping_begin = true;
    posted = [];
  }

  -- `stop`. The user threads return; tasks that are still queued are dropped with the manager.
  unfoldable pub stop : Context H → Outcome (Context H)
  unfolding stop_each cleared
  stop s = elim s.thread_manager [
    | none ↦ null_deref
    | some m ↦ ok (cleared (stop_each s.actors s))
  ]

  -- `~context`.
  unfoldable pub destroy : Context H → Outcome (Context H)
  unfolding stop
  destroy s = if is_some s.thread_manager then stop s else ok s

-- `action_handle` of `root_actor`, `usr_actor` and `sys_actor`, which ignores the envelope.
abbrev pub system_action_handle : {H : Type 0} → Envelope H → Method H
system_action_handle e = returns
