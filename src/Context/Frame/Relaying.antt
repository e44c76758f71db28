-- ===== src/Context/Frame/Relaying.antt =====
-- libyaaf/context.cpp: the first part of `mailbox_worker` as far as a relation is kept.
use yaaf.Common.{
  ℕ, zero, suc, ◌≡◌, subst, Bool, true, false, none, some, Option, List, [], ◌∷◌, Str, length,
  arith, lookup, nat_eq, str_eq,
}
use yaaf.Common.Outcomes.{Outcome, ok, ◌>>=◌, >>=-eq-ok, ok-injective}
use yaaf.Address.{IdT}
use yaaf.Payload.{Envelope, no_envelope, assign_envelope}
use yaaf.Mailbox.{Mailbox, try_pop}
use yaaf.Context.State.{Context, BoxPtr, ExchangeT, update}
use yaaf.Context.Send.{push_to}
use yaaf.Context.Worker.{push_copy, push_each, drain, relay}

module _ {H : Type 0} where
  -- Kept by what happens to mailboxes.
  pub record BoxFrame (R : Context H → Context H → Type 0) : Type 0 where
    pub same : (s : Context H) → R s s
    pub trans : {s t u : Context H} → R s t → R t u → R s u
    pub pushes : (b : BoxPtr) (e : Envelope H) (s t : Context H) → push_to b e s ≡ ok t → R s t
    pub pops :
        (b : BoxPtr) (out e : Envelope H) (mb : Mailbox H) (popped : Bool) (s : Context H)
        → try_pop out (s.boxes b) ≡ ok (popped, e, mb)
        → R s (record s { boxes = update s.boxes b mb })

module _ {H : Type 0} {R : Context H → Context H → Type 0} (k : BoxFrame R) where
  push_copy_kept :
      (e : Envelope H) (o : Option BoxPtr) (s t : Context H) → push_copy e o s ≡ ok t → R s t
  unfolding push_copy
  push_copy_kept e none s t h = subst (R s) (ok-injective h) (k.same s)
  push_copy_kept e (some b) s t h =
      let (cp, _, pushed) = >>=-eq-ok (assign_envelope no_envelope e) (λ cp. push_to b e s) h in
      k.pushes b e s t pushed

  push_each_kept :
      (e : Envelope H) (is : List IdT) (s t : Context H) → push_each e is s ≡ ok t → R s t
  unfolding push_each
  push_each_kept e [] s t h = subst (R s) (ok-injective h) (k.same s)
  push_each_kept e (i ∷ is) s t h =
      let (u, pushed, rest) =
        >>=-eq-ok (push_copy e (lookup i s.mboxes) s) (λ u. push_each e is u) h in
      k.trans (push_copy_kept e (lookup i s.mboxes) s u pushed) (push_each_kept e is u t rest)

  relayed_kept :
      (popped : Bool) (e : Envelope H) (is : List IdT) (s t : Context H)
      (go : Context H → Outcome (Context H))
      → ((u : Context H) → go u ≡ ok t → R u t)
      → (elim popped as (λ x. Outcome (Context H)) [
        | false ↦ ok s
        | true ↦ push_each e is s >>= go
      ])
        ≡ ok t
      → R s t
  relayed_kept false e is s t go later h = subst (R s) (ok-injective h) (k.same s)
  relayed_kept true e is s t go later h =
      let (u, pushed, rest) = >>=-eq-ok (push_each e is s) go h in
      k.trans (push_each_kept e is s u pushed) (later u rest)

  pub drain_kept :
      (fuel : ℕ) (p : BoxPtr) (is : List IdT) (out : Envelope H) (s t : Context H)
      → drain fuel p is out s ≡ ok t
      → R s t
  unfolding drain
  drain_kept zero p is out s t h = absurd (ground arith)
  drain_kept (suc fuel) p is out s t h =
      let ((popped, e, mb), got, rest) = >>=-eq-ok (try_pop out (s.boxes p)) _ h in
      k.trans (k.pops p out e mb popped s got) (
        relayed_kept popped e is (record s { boxes = update s.boxes p mb }) t
          (λ u. drain fuel p is e u) (λ u. drain_kept fuel p is e u t) rest)

  pub relay_kept : (xs : List (Str × ExchangeT)) (s t : Context H) → relay xs s ≡ ok t → R s t
  unfolding relay
  relay_kept [] s t h = subst (R s) (ok-injective h) (k.same s)
  relay_kept ((n, x) ∷ xs) s t h =
      let fuel = suc (length (s.boxes x.pub_box).dqueue) in
      let (u, drained, rest) =
        >>=-eq-ok (drain fuel x.pub_box x.subscribes no_envelope s) (λ u. relay xs u) h in
      k.trans (drain_kept fuel x.pub_box x.subscribes no_envelope s u drained)
        (relay_kept xs u t rest)
