-- ===== src/Actor/Delivery.antt =====
-- libyaaf/actor.cpp: what `base_actor::apply` does with a whole mailbox.
use yaaf.Common.{
  if◌then◌else◌, ℕ, zero, suc, ◌<◌, ◌≡◌, ◌∙◌, refl, ap, subst, Bool, true, false, not, ◌&&◌, Option,
  none, some, List, [], ◌∷◌, ◌++◌, length, Str, All, arith, Bool-cases, inl, inr,
}
use yaaf.Common.Outcomes.{Outcome, ok, thrown, ◌>>=◌, >>=-eq-ok, ok-injective, >>=-cong}
use yaaf.Payload.{Envelope, no_envelope, IsFilled}
use yaaf.Mailbox.{Mailbox, no_mail, mailbox_empty}
use yaaf.Mailbox.Fifo.{try_pop_filled, try_pop_nil}
use yaaf.Actor.{BaseActor, normal, with_error, update_status, reset_busy}
use yaaf.Actor.Apply.{Host, handle_all, unless_thrown, finish, apply}

module _ {H S : Type 0} (h : Host H S) where
  -- What is written to the actor and to the mailbox is read back.
  pub record HostLaws : Type 0 where
    pub actor-set_actor : (a : BaseActor) (s : S) → h.actor (h.set_actor a s) ≡ a
    pub mailbox-set_mailbox : (mb : Mailbox H) (s : S) → h.mailbox (h.set_mailbox mb s) ≡ mb
    pub mailbox-set_actor : (a : BaseActor) (s : S) → h.mailbox (h.set_actor a s) ≡ h.mailbox s

  -- The handler sends nothing to its own actor, and nobody else does while it runs.
  abbrev pub IsQuiet : Type 0
  IsQuiet =
      (e : Envelope H) (s t : S) (ex : Option Str)
      → h.action_handle e s ≡ ok (t, ex)
      → h.mailbox t ≡ h.mailbox s

  -- The contract: the envelopes are handled front to back, each once, up to the first exception; what
  -- is behind that one stays in the mailbox.
  unfoldable pub deliver : List (Envelope H) → S → Outcome (S × Option Str)
  deliver [] s = ok (h.set_mailbox no_mail s, none)
  deliver (e ∷ es) s =
      h.action_handle e (h.set_mailbox (record { dqueue = es }) s)
      >>= unless_thrown (λ s'. deliver es s')

  -- What is left behind: the actor is free, and its status tells how it went.
  abbrev pub settled : S × Option Str → S × Option Str
  settled (s, none) = (
    h.set_actor (record (h.actor s) { busy = false; status = record { kind = normal; msg = [] } })
        s,
    none,
  )
  settled (s, some what) = (
    h.set_actor
        (record (h.actor s) { busy = false; status = record { kind = with_error; msg = what } }) s,
    some what,
  )

  finish-settled : (r : S × Option Str) → finish h r ≡ settled r
  unfolding finish update_status reset_busy
  finish-settled (s, none) = refl
  finish-settled (s, some what) = refl

module _ {H S : Type 0} (h : Host H S) (laws : HostLaws h) (quiet : IsQuiet h) where
  agree :
      (e : Envelope H) (es : List (Envelope H)) (fuel : ℕ) (s1 : S)
      → ((t : S) → h.action_handle e s1 ≡ ok (t, none) → handle_all h fuel e t ≡ deliver h es t)
      → (r : S × Option Str) → h.action_handle e s1 ≡ ok r
      → unless_thrown (λ t. handle_all h fuel e t) r ≡ unless_thrown (λ t. deliver h es t) r
  agree e es fuel s1 same (t, none) q = same t q
  agree e es fuel s1 same (t, some what) q = refl

  handle_all-deliver :
      (fuel : ℕ) (el : Envelope H) (s : S) (es : List (Envelope H))
      → h.mailbox s ≡ record { dqueue = es }
      → All IsFilled es
      → length es < fuel
      → handle_all h fuel el s ≡ deliver h es s
  unfolding handle_all deliver
  handle_all-deliver zero el s es m f lt = absurd (omega arith)
  handle_all-deliver (suc fuel) el s [] m f lt = rw (m, try_pop_nil el)
  handle_all-deliver (suc fuel) el s (e ∷ es) m f lt =
      let s1 = h.set_mailbox (record { dqueue = es }) s in
      let same = λ (t : S) (r : h.action_handle e s1 ≡ ok (t, none)).
        handle_all-deliver fuel e t es
          (quiet e s1 t none r ∙ laws.mailbox-set_mailbox (record { dqueue = es }) s) f.1
          (omega arith) in
      rw (m, try_pop_filled el e es f.0)
        (>>=-cong (h.action_handle e s1) (unless_thrown (λ t. handle_all h fuel e t))
          (unless_thrown (λ t. deliver h es t)) (agree e es fuel s1 same))

  pub apply-deliver :
      (double_checks : Bool) (not_busy : Str) (fuel : ℕ) (s : S) (e : Envelope H)
      (es : List (Envelope H))
      → h.mailbox s ≡ record { dqueue = e ∷ es }
      → All IsFilled (e ∷ es)
      → (h.actor s).busy ≡ true
      → length (e ∷ es) < fuel
      → apply h double_checks not_busy fuel s ≡ (deliver h (e ∷ es) s >>= λ r. ok (settled h r))
  unfolding apply mailbox_empty
  apply-deliver double_checks not_busy fuel s e es m f b lt =
      rw (m, b)
        (elim double_checks as (λ c. (if c && false then thrown not_busy else handled) ≡ wanted) [
          | true ↦ same
          | false ↦ same
        ])
    where
      handled : Outcome (S × Option Str)
      handled = handle_all h fuel no_envelope s >>= λ r. ok (finish h r)

      wanted : Outcome (S × Option Str)
      wanted = deliver h (e ∷ es) s >>= λ r. ok (settled h r)

      same : handled ≡ wanted
      same = rw (handle_all-deliver fuel no_envelope s (e ∷ es) m f lt) (
          >>=-cong (deliver h (e ∷ es) s) (λ r. ok (finish h r)) (λ r. ok (settled h r))
            (λ r run. ap ok (finish-settled h r)))

  first :
      (e : Envelope H) (es : List (Envelope H)) (s1 : S)
      → h.mailbox s1 ≡ record { dqueue = es }
      → (r : S × Option Str) → h.action_handle e s1 ≡ ok r
      → (t : S) (ex : Option Str) → unless_thrown (λ u. deliver h es u) r ≡ ok (t, ex)
      → ((u : S)
          → deliver h es u ≡ ok (t, ex)
          → (front : List (Envelope H)) × (es ≡ front ++ (h.mailbox t).dqueue)
            × (ex ≡ none → (h.mailbox t).dqueue ≡ []))
      → (front : List (Envelope H)) × (e ∷ es ≡ front ++ (h.mailbox t).dqueue)
        × (ex ≡ none → (h.mailbox t).dqueue ≡ [])
  first e es s1 m (u, none) q t ex rest later =
      let (front, split, clean) = later u rest in (e ∷ front, ap (◌∷◌ e) split, clean)
  first e es s1 m (u, some what) q t ex rest later =
      (e ∷ [], ground (arith, quiet e s1 u (some what) q), ground arith)

  -- What `deliver` leaves in the mailbox is a suffix of it, and nothing if no exception was thrown.
  pub deliver-mailbox :
      (es : List (Envelope H)) (s t : S) (ex : Option Str)
      → deliver h es s ≡ ok (t, ex)
      → (front : List (Envelope H)) × (es ≡ front ++ (h.mailbox t).dqueue)
        × (ex ≡ none → (h.mailbox t).dqueue ≡ [])
  unfolding deliver
  deliver-mailbox [] s t ex e = (
    [],
    ground (arith, laws.mailbox-set_mailbox no_mail s),
    ground (arith, laws.mailbox-set_mailbox no_mail s),
  )
  deliver-mailbox (e ∷ es) s t ex run =
      let s1 = h.set_mailbox (record { dqueue = es }) s in
      let (r, handled, rest) =
        >>=-eq-ok (h.action_handle e s1) (unless_thrown (λ u. deliver h es u)) run in
      first e es s1 (laws.mailbox-set_mailbox (record { dqueue = es }) s) r handled t ex rest
        (λ u. deliver-mailbox es u t ex)

module _ {H S : Type 0} (h : Host H S) (laws : HostLaws h) where
  -- The actor is free, and its status tells how `apply` ended.
  abbrev pub IsSettled : S × Option Str → Type 0
  IsSettled (t, none) =
      ((h.actor t).busy ≡ false) × ((h.actor t).status ≡ record { kind = normal; msg = [] })
  IsSettled (t, some what) =
      ((h.actor t).busy ≡ false) × ((h.actor t).status ≡ record { kind = with_error; msg = what })

  finish-IsSettled : (r : S × Option Str) → IsSettled (finish h r)
  unfolding finish update_status reset_busy
  finish-IsSettled (s, none) = rw (laws.actor-set_actor _ s) (refl, refl)
  finish-IsSettled (s, some what) = rw (laws.actor-set_actor _ s) (refl, refl)

  bind-IsSettled :
      (m : Outcome (S × Option Str)) (r : S × Option Str)
      → (m >>= λ x. ok (finish h x)) ≡ ok r
      → IsSettled r
  bind-IsSettled m r e =
      let (x, _, p) = >>=-eq-ok m (λ x. ok (finish h x)) e in
      subst IsSettled (ok-injective p) (finish-IsSettled x)

  -- However `apply` ends by itself, by returning or by throwing on what a handler threw, the actor is
  -- free afterwards, and its status says which of the two it was, with the exception's text.
  pub apply-IsSettled :
      (double_checks : Bool) (not_busy : Str) (fuel : ℕ) (s : S) (r : S × Option Str)
      → apply h double_checks not_busy fuel s ≡ ok r
      → IsSettled r
  unfolding apply
  apply-IsSettled double_checks not_busy fuel s r e =
      elim (Bool-cases (mailbox_empty (h.mailbox s))) [
        | inl nothing ↦
            subst IsSettled (ok-injective (rw nothing at e)) (finish-IsSettled (s, none))
        | inr some_mail ↦ elim (Bool-cases (double_checks && not (h.actor s).busy)) [
          | inl free ↦ absurd (ground arith)
          | inr held ↦
              bind-IsSettled (handle_all h fuel no_envelope s) r (rw (some_mail, held) at e)
        ]
      ]
