-- ===== src/Context/Worker.antt =====
-- libyaaf/context.cpp: `mailbox_worker`, which the system thread runs again and again. Each attempt to
-- take a lock may fail; the answers are an argument. What other threads do between two looks at an
-- actor or at a mailbox is an argument too.
pub mod Relay
pub mod Exclusive
pub mod Total
pub mod Posting
pub mod Bare
use yaaf.Common.{
  ℕ, zero, suc, Bool, true, false, not, if◌then◌else◌, ◌&&◌, Option, none, some, is_some, List, [],
  ◌∷◌, Str, nat_eq, str_eq, length, any, lookup, erase,
}
use yaaf.Common.Outcomes.{Outcome, ok, thrown, null_deref, out_of_fuel, ◌>>=◌}
use yaaf.Address.{IdT, id_empty}
use yaaf.Payload.{Envelope, no_envelope, assign_envelope}
use yaaf.Mailbox.{Mailbox, mailbox_empty, try_pop}
use yaaf.Actor.{BaseActor, try_lock, reset_busy}
use yaaf.Context.State.{
  Context, Description, ExchangeT, BoxPtr, ActorPtr, UserTask, apply_mail, update,
}
use yaaf.Context.Add.{user_post}
use yaaf.Context.Send.{push_to}

-- The answers of `try_lock` and `try_lock_shared`, in the order of the code.
pub record LockAnswers : Type 0 where
  pub exchange_shared : Bool
  pub registry : Bool
  pub registry_shared : Bool
  pub exchange : Bool
  pub registry_again : Bool

-- `flips` acts on an actor's `_busy` between the load and the exchange of `try_lock`; `drains` acts on
-- a mailbox after `try_lock`, before the second look at it.
pub record Others (H : Type 0) : Type 0 where
  pub flips : ActorPtr → Bool → Bool
  pub drains : BoxPtr → Mailbox H → Mailbox H

-- The parent's actor, through `_actors[parent]`, which is null for a missing id.
unfoldable pub parent_actor : Bool → Option Description → Outcome (Option ActorPtr)
parent_actor true p = ok none
parent_actor false none = null_deref
parent_actor false (some p) = ok (some p.actor)

unfoldable pub erase_names : List Str → List (Str × ExchangeT) → List (Str × ExchangeT)
erase_names [] m = m
erase_names (n ∷ ns) m = erase_names ns (erase n m)

unfoldable pub erase_ids : List IdT → List (IdT × BoxPtr) → List (IdT × BoxPtr)
erase_ids [] m = m
erase_ids (i ∷ is) m = erase_ids is (erase i m)

module _ {H : Type 0} where
  -- The body of the loop over the subscribers. `cp` is filled, and the envelope itself is pushed.
  unfoldable pub push_copy : Envelope H → Option BoxPtr → Context H → Outcome (Context H)
  push_copy e none s = ok s
  push_copy e (some b) s = assign_envelope no_envelope e >>= λ cp. push_to b e s

  unfoldable pub push_each : Envelope H → List IdT → Context H → Outcome (Context H)
  unfolding push_copy push_to
  push_each e [] s = ok s
  push_each e (i ∷ is) s = push_copy e (lookup i s.mboxes) s >>= λ s'. push_each e is s'

  -- `while (kv.second.pub->try_pop(e))`.
  unfoldable pub drain : ℕ → BoxPtr → List IdT → Envelope H → Context H → Outcome (Context H)
  unfolding push_each
  drain zero b subscribes out s = out_of_fuel
  drain (suc fuel) b subscribes out s = try_pop out (s.boxes b) >>= λ (popped, e, mb).
      let s1 = record s { boxes = update s.boxes b mb } in
      elim popped [
        | false ↦ ok s1
        | true ↦ push_each e subscribes s1 >>= λ s2. drain fuel b subscribes e s2
      ]

  -- The loop over the exchanges. Nothing is pushed to an exchange meanwhile, so one round for each
  -- envelope and one more are enough.
  unfoldable pub relay : List (Str × ExchangeT) → Context H → Outcome (Context H)
  unfolding drain
  relay [] s = ok s
  relay ((n, x) ∷ xs) s =
      drain (suc (length (s.boxes x.pub_box).dqueue)) x.pub_box x.subscribes no_envelope s >>= λ s'.
      relay xs s'

  -- `try_lock` has succeeded.
  unfoldable pub post_apply : Others H → Description → BoxPtr → Context H → Outcome (Context H)
  unfolding parent_actor id_empty reset_busy user_post
  post_apply others d b s =
      let mb = others.drains b (s.boxes b) in
      let s1 = record s { boxes = update s.boxes b mb } in
      let freed = record s1 {
        objects = update s1.objects d.actor (reset_busy (s1.objects d.actor));
      } in
      if mailbox_empty mb
      then ok freed
      else parent_actor (id_empty d.parent) (lookup d.parent s1.actors) >>= λ parent.
          user_post (apply_mail d parent b) s1

  unfoldable pub take_mail : Others H → Description → BoxPtr → Context H → Outcome (Context H)
  unfolding post_apply try_lock
  take_mail others d b s =
      let (got, a) = try_lock (others.flips d.actor) (s.objects d.actor) in
      let s1 = record s { objects = update s.objects d.actor a } in
      if got then post_apply others d b s1 else ok s1

  unfoldable pub visit :
      Others H
      → IdT
      → BoxPtr
      → Option Description
      → Context H × List IdT
      → Outcome (Context H × List IdT)
  unfolding take_mail
  visit others i b none (s, to_remove) = ok (s, i ∷ to_remove)
  visit others i b (some d) (s, to_remove) = take_mail others d b s >>= λ s'. ok (s', to_remove)

  -- The loop over the mailboxes: the context, and `to_remove`.
  unfoldable pub scan :
      Others H → List (IdT × BoxPtr) → Context H × List IdT → Outcome (Context H × List IdT)
  unfolding visit
  scan others [] r = ok r
  scan others ((i, b) ∷ ms) (s, to_remove) =
      (if mailbox_empty (s.boxes b)
        then ok (s, to_remove)
        else visit others i b (lookup i s.actors) (s, to_remove))
      >>= λ r. scan others ms r

  -- Neither the owner nor a subscriber is an actor.
  unfoldable pub is_deserted : Context H → ExchangeT → Bool
  is_deserted s x =
      not (is_some (lookup x.owner.id s.actors))
      && not (any (λ i. is_some (lookup i s.actors)) x.subscribes)

  -- `ex_to_remove`.
  unfoldable pub deserted : Context H → List (Str × ExchangeT) → List Str
  unfolding is_deserted
  deserted s [] = []
  deserted s ((n, x) ∷ xs) = if is_deserted s x then n ∷ deserted s xs else deserted s xs

  unfoldable pub sweep : Context H → Context H
  unfolding deserted erase_names
  sweep s = record s { exchanges = erase_names (deserted s s.exchanges) s.exchanges }

  unfoldable pub clean : List IdT → Context H → Context H
  unfolding erase_ids
  clean ids s = record s { mboxes = erase_ids ids s.mboxes }

  -- What follows the first part.
  unfoldable pub scan_and_sweep : LockAnswers → Others H → Context H → Outcome (Context H)
  unfolding scan sweep clean
  scan_and_sweep l others s = scan others s.mboxes (s, []) >>= λ (s1, to_remove).
      let s2 = if l.exchange then sweep s1 else s1 in
      ok (if l.registry_again then clean to_remove s2 else s2)

  unfoldable pub mailbox_worker : LockAnswers → Others H → Context H → Outcome (Context H)
  unfolding relay scan_and_sweep
  mailbox_worker l others s =
      (if l.exchange_shared && l.registry then relay s.exchanges s else ok s) >>= λ s1.
      if l.registry_shared then scan_and_sweep l others s1 else ok s1
