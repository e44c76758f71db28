-- ===== src/Mailbox.antt =====
-- libyaaf/mailbox.h: the queue of one actor or of one exchange. Each method holds the mailbox's own
-- lock from its first step to its last, so it is one step of the model.
pub mod Fifo
use yaaf.Common.{ℕ, Bool, true, false, List, [], ◌∷◌, ◌++◌, length}
use yaaf.Common.Outcomes.{Outcome, ok, thrown, null_deref, out_of_fuel, ◌>>=◌}
use yaaf.Address.{Address}
use yaaf.Payload.{Payload, Envelope, payload_of, copy_envelope, assign_envelope}

-- `_dqueue`, its front first.
pub record Mailbox {ℓ} (H : Type ℓ) : Type ℓ where
  pub dqueue : List (Envelope H)

module _ {ℓ} {H : Type ℓ} where
  abbrev pub no_mail : Mailbox H
  no_mail = record { dqueue = [] }

  is_nil : List (Envelope H) → Bool
  is_nil [] = true
  is_nil (e ∷ es) = false

  -- `empty()`.
  unfoldable pub mailbox_empty : Mailbox H → Bool
  unfolding is_nil
  mailbox_empty mb = is_nil mb.dqueue

  -- `size()`.
  unfoldable pub size : Mailbox H → ℕ
  size mb = length mb.dqueue

  -- `push(const envelope &)` and `push(const envelope &&)`: both copy, since the reference is const.
  unfoldable pub push : Envelope H → Mailbox H → Outcome (Mailbox H)
  unfolding copy_envelope
  push e mb = copy_envelope e >>= λ c. ok (record { dqueue = mb.dqueue ++ c ∷ [] })

  -- `push(T &&, const actor_address &)`: the payload is assigned to a fresh envelope.
  unfoldable pub push_value : H → Address → Mailbox H → Outcome (Mailbox H)
  unfolding push
  push_value h sender mb = push (record { payload = payload_of h; sender = sender }) mb

  pop_front : Envelope H → List (Envelope H) → Outcome (Bool × Envelope H × Mailbox H)
  pop_front out [] = ok (false, out, no_mail)
  pop_front out (e ∷ es) = assign_envelope out e >>= λ out'. ok (true, out', record { dqueue = es })

  -- `try_pop(out)`: whether there was an envelope, the new value of `out`, and the mailbox.
  unfoldable pub try_pop : Envelope H → Mailbox H → Outcome (Bool × Envelope H × Mailbox H)
  unfolding pop_front assign_envelope
  try_pop out mb = pop_front out mb.dqueue
