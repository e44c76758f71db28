-- ===== src/Payload.antt =====
-- libyaaf/payload.h (`payload_t`) and libyaaf/envelope.h (`envelope`). The holder type is a parameter
-- until `Typed`, where it is a value with its type's tag. A holder's `clone` equals the holder.
pub mod Typed
use yaaf.Common.{Bool, not, ◌≡◌, true, Option, none, some, is_some}
use yaaf.Common.Outcomes.{Outcome, ok, thrown, null_deref, out_of_fuel, ◌>>=◌}
use yaaf.Address.{Address, no_address}

pub record Payload {ℓ} (H : Type ℓ) : Type ℓ where
  pub holder : Option H

pub record Envelope {ℓ} (H : Type ℓ) : Type ℓ where
  pub payload : Payload H
  pub sender : Address

module _ {ℓ} {H : Type ℓ} where
  -- `payload_t()`.
  abbrev pub no_payload : Payload H
  no_payload = record { holder = none }

  -- `payload_t(const T &)`.
  abbrev pub payload_of : H → Payload H
  payload_of h = record { holder = some h }

  -- `empty()`.
  unfoldable pub payload_empty : Payload H → Bool
  payload_empty p = not (is_some p.holder)

  clone : Option H → Outcome (Payload H)
  clone none = null_deref
  clone (some h) = ok (payload_of h)

  -- The copy constructor calls `clone` through the other's pointer without a test.
  unfoldable pub copy : Payload H → Outcome (Payload H)
  unfolding clone
  copy p = clone p.holder

  -- The move constructor: the new payload and what is left of the other.
  unfoldable pub move : Payload H → Payload H × Payload H
  move p = (p, no_payload)

  unfoldable pub swap : Payload H → Payload H → Payload H × Payload H
  swap l r = (r, l)

  -- `operator=`: a copy, swapped in.
  unfoldable pub assign : Payload H → Payload H → Outcome (Payload H)
  unfolding copy swap
  assign this other = copy other >>= λ tmp. ok (swap this tmp).0

  abbrev pub no_envelope : Envelope H
  no_envelope = record { payload = no_payload; sender = no_address }

  -- The implicit copy constructor of `envelope`, memberwise.
  unfoldable pub copy_envelope : Envelope H → Outcome (Envelope H)
  unfolding copy
  copy_envelope e = copy e.payload >>= λ p. ok (record { payload = p; sender = e.sender })

  -- The implicit copy assignment, memberwise.
  unfoldable pub assign_envelope : Envelope H → Envelope H → Outcome (Envelope H)
  unfolding assign
  assign_envelope this other =
      assign this.payload other.payload >>= λ p. ok (record { payload = p; sender = other.sender })

  -- The envelope carries a value.
  abbrev pub IsFilled : Envelope H → Type 0
  IsFilled e = is_some e.payload.holder ≡ true
