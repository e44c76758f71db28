-- ===== src/Context/Exchanges/Topics.antt =====
-- libyaaf/context.cpp: what senders and publishers can rely on.
use yaaf.Common.{
  ◌≡◌, ◌≢◌, ◌⊎◌, true, false, Option, none, some, [], ◌∷◌, ◌++◌, nat_eq, str_eq, nat_beq_iff,
  str_beq_iff, lookup, arith, ◌==◌,
}
use yaaf.Common.Outcomes.{ok, thrown}
use yaaf.Address.{Address, null_name}
use yaaf.Payload.{Envelope, IsFilled}
use yaaf.Mailbox.{Mailbox}
use yaaf.Mailbox.Fifo.{push_filled}
use yaaf.Context.State.{Context, Program, ExchangeT, BoxPtr, update}
use yaaf.Context.Send.{send_envelope}

-- The exchange that is there, or a new one.
abbrev pub or_new : ExchangeT → Option ExchangeT → ExchangeT
or_new new none = new
or_new new (some x) = x

module _ {H : Type 0} where
  -- `send_envelope` of an envelope that carries a value to an actor with a mailbox, by an address with
  -- a path name, from one with a path name: the envelope is last in the mailbox of the target, and all
  -- else is as before.
  pub send_envelope_lem :
      (program : Program H) (target : Address) (e : Envelope H) (s : Context H) (b : BoxPtr)
      → IsFilled e
      → (target.pathname == null_name) ≡ false
      → (e.sender.pathname == null_name) ≡ false
      → lookup target.id s.mboxes ≡ some b
      → (bx : BoxPtr → Mailbox H) × (send_envelope program target e s
          ≡ ok (record s { boxes = bx }))
        × ((bx b).dqueue ≡ (s.boxes b).dqueue ++ e ∷ [])
        × ((c : BoxPtr) → c ≢ b → bx c ≡ s.boxes c)
  unfolding send_envelope
  send_envelope_lem program target e s b f named signed there = (
    update s.boxes b (record { dqueue = (s.boxes b).dqueue ++ e ∷ [] }),
    ground (arith, push_filled e (s.boxes b) f),
    ground (arith, nat_beq_iff b b),
    λ c ne. ground (arith, nat_beq_iff c b),
  )

  -- With `DOUBLE_CHECKS` a target or a sender that was made from an id alone is refused.
  pub send_envelope_null :
      (program : Program H) (target : Address) (e : Envelope H) (s : Context H)
      → program.double_checks ≡ true
      → (target.pathname ≡ null_name) ⊎ (e.sender.pathname ≡ null_name)
      → send_envelope program target e s ≡ thrown program.ensure_text
  unfolding send_envelope
  send_envelope_null program target e s on bad =
      ground (arith, str_beq_iff target.pathname null_name, str_beq_iff e.sender.pathname null_name)
