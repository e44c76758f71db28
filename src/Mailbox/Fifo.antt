-- ===== src/Mailbox/Fifo.antt =====
-- libyaaf/mailbox.h as a first-in, first-out queue of envelopes that carry a value.
use yaaf.Common.{
  ℕ, suc, true, false, if◌then◌else◌, List, [], ◌∷◌, ◌++◌, length, ◌≡◌, refl, All, arith, is_some,
  append_assoc, append-nil,
}
use yaaf.Common.Outcomes.{Outcome, ok, null_deref, ◌>>=◌}
use yaaf.Payload.{Envelope, IsFilled, copy_envelope, assign_envelope}
use yaaf.Mailbox.{Mailbox, no_mail, push, try_pop}

module _ {ℓ} {H : Type ℓ} where
  -- Copying an envelope that carries a value gives that envelope.
  pub copy_filled : (e : Envelope H) → IsFilled e → copy_envelope e ≡ ok e
  unfolding copy_envelope
  copy_filled e f = ground arith

  pub assign_filled : (out e : Envelope H) → IsFilled e → assign_envelope out e ≡ ok e
  unfolding assign_envelope
  assign_filled out e f = ground arith

  pub push_filled :
      (e : Envelope H) (mb : Mailbox H)
      → IsFilled e
      → push e mb ≡ ok (record { dqueue = mb.dqueue ++ e ∷ [] })
  unfolding push
  push_filled e mb f = ground arith

  -- `push` appends the envelope, whole and at the back, if it carries a value, and else reads a null
  -- pointer.
  pub push_lem :
      (e : Envelope H) (mb : Mailbox H)
      → push e mb ≡ (
          if is_some e.payload.holder
          then ok (record { dqueue = mb.dqueue ++ e ∷ [] })
          else null_deref)
  unfolding push
  push_lem e mb = ground arith

  pub try_pop_filled :
      (out e : Envelope H) (es : List (Envelope H))
      → IsFilled e
      → try_pop out (record { dqueue = e ∷ es }) ≡ ok (true, e, record { dqueue = es })
  unfolding try_pop
  try_pop_filled out e es f = ground arith

  pub try_pop_nil :
      (out : Envelope H) → try_pop out (record { dqueue = [] }) ≡ ok (false, out, no_mail)
  unfolding try_pop
  try_pop_nil out = refl

  -- Push a list of envelopes, and pop until the mailbox is empty.
  abbrev pub push_all : List (Envelope H) → Mailbox H → Outcome (Mailbox H)
  push_all [] mb = ok mb
  push_all (e ∷ es) mb = push e mb >>= λ mb'. push_all es mb'

  abbrev pub pop_all : ℕ → Envelope H → Mailbox H → Outcome (List (Envelope H) × Mailbox H)
  pop_all ℕ.zero out mb = ok ([], mb)
  pop_all (suc n) out mb =
      try_pop out mb >>= λ (b, e, mb'). pop_all n e mb' >>= λ (es, mb''). ok (e ∷ es, mb'')

  push_all_filled :
      (es : List (Envelope H)) (mb : Mailbox H)
      → All IsFilled es
      → push_all es mb ≡ ok (record { dqueue = mb.dqueue ++ es })
  push_all_filled [] mb f = rw append-nil
  push_all_filled (e ∷ es) mb f =
      rw (push_filled e mb f.0, push_all_filled es _ f.1, append_assoc mb.dqueue (e ∷ []) es)

  pop_all_filled :
      (es : List (Envelope H)) (rest : List (Envelope H)) (out : Envelope H)
      → All IsFilled es
      → pop_all (length es) out (record { dqueue = es ++ rest }) ≡ ok (es, record { dqueue = rest })
  pop_all_filled [] rest out f = refl
  pop_all_filled (e ∷ es) rest out f =
      rw (try_pop_filled out e (es ++ rest) f.0, pop_all_filled es rest e f.1)

  -- What is pushed into an empty mailbox comes out in the order in which it went in, complete and
  -- unchanged, whatever is pushed behind it, if every envelope carries a value.
  pub pop_all-push_all :
      (es later : List (Envelope H)) (out : Envelope H)
      → All IsFilled es
      → All IsFilled later
      → (push_all es no_mail >>= λ mb. push_all later mb >>= λ mb'. pop_all (length es) out mb')
        ≡ ok (es, record { dqueue = later })
  pop_all-push_all es later out f g =
      rw (push_all_filled es no_mail f, push_all_filled later _ g, pop_all_filled es later out f)
