-- ===== src/Context/Sound/Sending.antt =====
-- libyaaf/context.cpp: sends, exchanges and publications in any context.
use yaaf.Common.{
  ◌≡◌, refl, subst, none, some, List, [], ◌∷◌, ◌++◌, nat_eq, str_eq, arith, Option, Bool-cases, inl,
  inr, lookup, nat_beq_iff, All, Str, is_some,
}
use yaaf.Common.Outcomes.{ok, >>=-eq-ok, ok-injective}
use yaaf.Address.{Address}
use yaaf.Payload.{Envelope, IsFilled}
use yaaf.Mailbox.{Mailbox, push}
use yaaf.Mailbox.Fifo.{push_lem}
use yaaf.Context.State.{Context, ExchangeT, Program, BoxPtr, update}
use yaaf.Context.Send.{push_to, deliver_to, send_envelope}
use yaaf.Context.Exchanges.{publish_on, publish_to_exchange}
use yaaf.Context.Registry.Same.{SameMaps}
use yaaf.Context.Sound.{Evolves, Evolves-refl, Evolves-same}

module _ {H : Type 0} where
  pub All-IsFilled-snoc :
      (es : List (Envelope H)) (e : Envelope H)
      → All IsFilled es
      → IsFilled e
      → All IsFilled (es ++ e ∷ [])
  All-IsFilled-snoc [] e h f = (f, tt)
  All-IsFilled-snoc (x ∷ es) e h f = (h.0, All-IsFilled-snoc es e h.1 f)

  -- A push that returns has pushed an envelope that carries a value.
  pub push-IsFilled :
      (e : Envelope H) (mb mb' : Mailbox H)
      → push e mb ≡ ok mb'
      → All IsFilled mb.dqueue
      → All IsFilled mb'.dqueue
  push-IsFilled e mb mb' h f = elim (Bool-cases (is_some e.payload.holder)) [
    | inl has ↦
        let same : record { dqueue = mb.dqueue ++ e ∷ [] } ≡ mb' = ground (arith, push_lem e mb) in
        subst (λ (x : Mailbox H). All IsFilled x.dqueue) same (All-IsFilled-snoc mb.dqueue e f has)
    | inr hasn't ↦ absurd (ground (arith, push_lem e mb))
  ]

  -- Only the boxes differ.
  pub boxes-SameMaps :
      (s : Context H) (bx : BoxPtr → Mailbox H) → SameMaps s (record s { boxes = bx })
  boxes-SameMaps s bx = record {
    next_actor_id = refl;
    actors = refl;
    id_by_name = refl;
    mboxes = refl;
    exchanges = refl;
    next_box = refl;
  }

  pub box-Evolves :
      (b : BoxPtr) (mb : Mailbox H) (s : Context H)
      → (All IsFilled (s.boxes b).dqueue → All IsFilled mb.dqueue)
      → Evolves s (record s { boxes = update s.boxes b mb })
  box-Evolves b mb s f =
      Evolves-same (boxes-SameMaps s (update s.boxes b mb)) (omega arith)
        (λ filled c. ground (arith, filled c, filled b, f, nat_beq_iff c b))

  pub push_to-Evolves :
      (b : BoxPtr) (e : Envelope H) (s t : Context H) → push_to b e s ≡ ok t → Evolves s t
  unfolding push_to
  push_to-Evolves b e s t h =
      let (mb, pushed, last) =
        >>=-eq-ok (push e (s.boxes b)) (λ mb. ok (record s { boxes = update s.boxes b mb })) h in
      subst (Evolves s) (ok-injective last)
        (box-Evolves b mb s (push-IsFilled e (s.boxes b) mb pushed))

  deliver_to-Evolves :
      (o : Option BoxPtr) (e : Envelope H) (s t : Context H) → deliver_to o e s ≡ ok t → Evolves s t
  unfolding deliver_to
  deliver_to-Evolves none e s t h = subst (Evolves s) (ok-injective h) (Evolves-refl s)
  deliver_to-Evolves (some b) e s t h = push_to-Evolves b e s t h

  pub send_envelope-Evolves :
      (program : Program H) (target : Address) (e : Envelope H) (s t : Context H)
      → send_envelope program target e s ≡ ok t
      → Evolves s t
  unfolding send_envelope
  send_envelope-Evolves program target e s t h =
      deliver_to-Evolves (lookup target.id s.mboxes) e s t (ground arith)

  publish_on-Evolves :
      (o : Option ExchangeT) (e : Envelope H) (s t : Context H)
      → publish_on o e s ≡ ok t
      → Evolves s t
  unfolding publish_on
  publish_on-Evolves none e s t h = subst (Evolves s) (ok-injective h) (Evolves-refl s)
  publish_on-Evolves (some x) e s t h = push_to-Evolves x.pub_box e s t h

  pub publish_to_exchange-Evolves :
      (name : Str) (e : Envelope H) (s t : Context H)
      → publish_to_exchange name e s ≡ ok t
      → Evolves s t
  unfolding publish_to_exchange
  publish_to_exchange-Evolves name e s t h = publish_on-Evolves (lookup name s.exchanges) e s t h
