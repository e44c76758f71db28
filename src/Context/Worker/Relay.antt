-- ===== src/Context/Worker/Relay.antt =====
-- libyaaf/context.cpp: the first part of `mailbox_worker` carries each envelope of an exchange to the
-- mailboxes of the subscribers.
use yaaf.Common.{
  suc, ◌≡◌, ◌≢◌, refl, sym, ◌∙◌, ap, Bool, false, if◌then◌else◌, Option, none, some, List, [], ◌∷◌,
  ◌++◌, append_assoc, append-nil, nat_eq, nat_beq_iff, ◌==◌, length, lookup, All, arith,
  Option-cases, beq_refl,
}
use yaaf.Common.Outcomes.{ok}
use yaaf.Address.{IdT}
use yaaf.Payload.{Envelope, IsFilled, no_envelope}
use yaaf.Mailbox.{Mailbox, no_mail}
use yaaf.Mailbox.Fifo.{try_pop_filled, try_pop_nil, push_filled, assign_filled}
use yaaf.Context.State.{Context, BoxPtr, update}
use yaaf.Context.Send.{push_to}
use yaaf.Context.Worker.{push_copy, push_each, drain}

-- Whether a subscription leads to the mailbox `b`.
abbrev pub leads : BoxPtr → Option BoxPtr → Bool
leads b none = false
leads b (some c) = c == b

module _ {H : Type 0} where
  -- An envelope, once for each subscription that leads to `b`.
  unfoldable pub copies : List (IdT × BoxPtr) → BoxPtr → List IdT → Envelope H → List (Envelope H)
  copies m b [] e = []
  copies m b (i ∷ is) e = (if leads b (lookup i m) then e ∷ [] else []) ++ copies m b is e

  -- The same for a sequence of envelopes, in its order.
  unfoldable pub all_copies :
      List (IdT × BoxPtr) → BoxPtr → List IdT → List (Envelope H) → List (Envelope H)
  all_copies m b is [] = []
  all_copies m b is (e ∷ es) = copies m b is e ++ all_copies m b is es

  push_copy_lem :
      (e : Envelope H) (o : Option BoxPtr) (s : Context H)
      → IsFilled e
      → (bx : BoxPtr → Mailbox H) × (push_copy e o s ≡ ok (record s { boxes = bx }))
        × ((b : BoxPtr) → (bx b).dqueue ≡ (s.boxes b).dqueue ++ (if leads b o then e ∷ [] else []))
  unfolding push_copy push_to
  push_copy_lem e none s f = (s.boxes, refl, λ b. sym (append-nil (s.boxes b).dqueue))
  push_copy_lem e (some c) s f = (
    update s.boxes c (record { dqueue = (s.boxes c).dqueue ++ e ∷ [] }),
    rw (assign_filled no_envelope e f, push_filled e (s.boxes c) f),
    λ b. ground (arith, nat_beq_iff b c, nat_beq_iff c b, append-nil (s.boxes b).dqueue),
  )

  push_each-copies :
      (e : Envelope H) (is : List IdT) (s : Context H)
      → IsFilled e
      → (bx : BoxPtr → Mailbox H) × (push_each e is s ≡ ok (record s { boxes = bx }))
        × ((b : BoxPtr) → (bx b).dqueue ≡ (s.boxes b).dqueue ++ copies s.mboxes b is e)
  unfolding push_each copies
  push_each-copies e [] s f = (s.boxes, refl, λ b. sym (append-nil (s.boxes b).dqueue))
  push_each-copies e (i ∷ is) s f =
      let (bx, run, here) = push_copy_lem e (lookup i s.mboxes) s f in
      let (cx, rest, there) = push_each-copies e is (record s { boxes = bx }) f in
      (cx, rw (run, rest), λ b. there b ∙ rw (here b) (append_assoc (s.boxes b).dqueue _ _))

  mailbox_eq :
      (mb : Mailbox H) (es : List (Envelope H)) → mb.dqueue ≡ es → mb ≡ record { dqueue = es }
  mailbox_eq mb es q = ground arith

  copies-apart :
      (m : List (IdT × BoxPtr)) (p : BoxPtr) (is : List IdT) (e : Envelope H)
      → ((i : IdT) → lookup i m ≢ some p)
      → copies m p is e ≡ []
  unfolding copies
  copies-apart m p [] e apart = refl
  copies-apart m p (i ∷ is) e apart =
      ground (arith, Option-cases (lookup i m), apart i, copies-apart m p is e apart)

  -- If no mailbox of an actor is the exchange's own and every envelope carries a value, `drain` ends
  -- with one round more than the exchange has envelopes. The exchange is empty then, each other
  -- mailbox has got, behind what it had, every envelope in order, once for each subscription that
  -- leads to it, and nothing but mailboxes has changed.
  pub drain-all_copies :
      (es : List (Envelope H)) (p : BoxPtr) (is : List IdT) (out : Envelope H) (s : Context H)
      → s.boxes p ≡ record { dqueue = es }
      → All IsFilled es
      → ((i : IdT) → lookup i s.mboxes ≢ some p)
      → (bx : BoxPtr → Mailbox H) × (drain (suc (length es)) p is out s
          ≡ ok (record s { boxes = bx }))
        × ((bx p).dqueue ≡ [])
        × ((b : BoxPtr) → b ≢ p → (bx b).dqueue ≡ (s.boxes b).dqueue ++ all_copies s.mboxes b is es)
  unfolding drain all_copies
  drain-all_copies [] p is out s h f apart = (
    update s.boxes p no_mail,
    rw (h, try_pop_nil out),
    ground (arith, beq_refl p),
    λ b ne. ground (arith, nat_beq_iff b p, append-nil (s.boxes b).dqueue),
  )
  drain-all_copies (e ∷ es) p is out s h f apart =
      let s1 = record s { boxes = update s.boxes p (record { dqueue = es }) } in
      let (bx, run, each) = push_each-copies e is s1 f.0 in
      let s2 = record s { boxes = bx } in
      let kept : bx p ≡ record { dqueue = es } = mailbox_eq (bx p) es (
        each p
        ∙ own es (update s.boxes p (record { dqueue = es }) p) (copies s.mboxes p is e)
            (rw (beq_refl p)) (copies-apart s.mboxes p is e apart)) in
      let (cx, rest, done, all) = drain-all_copies es p is e s2 kept f.1 apart in
      (
        cx,
        rw (h, try_pop_filled out e es f.0, run) rest,
        done,
        λ b ne.
            all b ne
            ∙ ap (λ q. q ++ all_copies s.mboxes b is es)
                (each b ∙ other b ne es (copies s.mboxes b is e))
            ∙ append_assoc (s.boxes b).dqueue (copies s.mboxes b is e)
                (all_copies s.mboxes b is es),
      )
    where
      own :
          (es : List (Envelope H)) (mb : Mailbox H) (c : List (Envelope H))
          → mb ≡ record { dqueue = es }
          → c ≡ []
          → mb.dqueue ++ c ≡ es
      own es mb c q r = rw (q, r) (append-nil es)

      other :
          (b : BoxPtr)
          → b ≢ p
          → (es c : List (Envelope H))
          → (update s.boxes p (record { dqueue = es }) b).dqueue ++ c ≡ (s.boxes b).dqueue ++ c
      other b ne es c = ground (arith, nat_beq_iff b p)
