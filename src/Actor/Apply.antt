-- ===== src/Actor/Apply.antt =====
-- libyaaf/actor.cpp: `base_actor::apply`, the loop that hands an actor its mail.
use yaaf.Common.{
  ℕ, zero, suc, Bool, true, false, if◌then◌else◌, not, ◌&&◌, Option, none, some, [], Str,
}
use yaaf.Common.Outcomes.{Outcome, ok, thrown, out_of_fuel, ◌>>=◌}
use yaaf.Payload.{Envelope, no_envelope}
use yaaf.Mailbox.{Mailbox, mailbox_empty, try_pop}
use yaaf.Actor.{BaseActor, normal, with_error, update_status, reset_busy}

-- What the loop uses of the world `S`: the actor, its mailbox, and the virtual method
-- `action_handle`, which may change the world and may end in an exception with a text; it may also read a null pointer.
pub record Host (H S : Type 0) : Type 0 where
  pub actor : S → BaseActor
  pub set_actor : BaseActor → S → S
  pub mailbox : S → Mailbox H
  pub set_mailbox : Mailbox H → S → S
  pub action_handle : Envelope H → S → Outcome (S × Option Str)

-- Go on, unless a handler has thrown.
abbrev pub unless_thrown :
    {S : Type 0} → (S → Outcome (S × Option Str)) → S × Option Str → Outcome (S × Option Str)
unless_thrown go (s, none) = go s
unless_thrown go (s, some what) = ok (s, some what)

module _ {H S : Type 0} (h : Host H S) where
  -- `while (mbox.try_pop(el)) action_handle(el)`. The result is the exception that ended the loop, if
  -- one did.
  unfoldable pub handle_all : ℕ → Envelope H → S → Outcome (S × Option Str)
  handle_all zero el s = out_of_fuel
  handle_all (suc fuel) el s = try_pop el (h.mailbox s) >>= λ (popped, el', mb).
      let s1 = h.set_mailbox mb s in
      elim popped [
        | false ↦ ok (s1, none)
        | true ↦ h.action_handle el' s1 >>= unless_thrown (λ s'. handle_all fuel el' s')
      ]

  unfoldable pub finish : S × Option Str → S × Option Str
  unfolding update_status reset_busy
  finish (s, none) = (h.set_actor (reset_busy (update_status normal [] (h.actor s))) s, none)
  finish (s, some what) =
      (h.set_actor (reset_busy (update_status with_error what (h.actor s))) s, some what)

  -- The result is the exception that is thrown on, if any. `not_busy` is the text of the `ENSURE`,
  -- which is there with `DOUBLE_CHECKS`.
  unfoldable pub apply : Bool → Str → ℕ → S → Outcome (S × Option Str)
  unfolding handle_all finish
  apply double_checks not_busy fuel s =
      if mailbox_empty (h.mailbox s)
      then ok (finish (s, none))
      else if double_checks && not (h.actor s).busy
      then thrown not_busy
      else handle_all fuel no_envelope s >>= λ r. ok (finish r)
