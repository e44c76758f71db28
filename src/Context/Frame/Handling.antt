-- ===== src/Context/Frame/Handling.antt =====
-- libyaaf/context.cpp: how an actor handles its mail, as far as a relation is kept.
use yaaf.Common.{
  ℕ, zero, suc, ◌≡◌, subst, Bool, true, false, not, ◌&&◌, none, some, Option, ◌∷◌, Str, arith,
  Bool-cases, Option-cases, inl, inr, nat_eq,
}
use yaaf.Common.Outcomes.{Outcome, ok, thrown, ◌>>=◌, >>=-eq-ok, ok-injective}
use yaaf.Payload.{Envelope, no_envelope}
use yaaf.Mailbox.{try_pop, mailbox_empty}
use yaaf.Actor.Apply.{handle_all, finish, apply, unless_thrown}
use yaaf.Context.State.{Context, Program, ActorPtr, BoxPtr, Method, update, on_start, action_handle}
use yaaf.Context.Supervision.{act, handle, context_host, start}
use yaaf.Context.Frame.{Frame}
use yaaf.Context.Frame.Calls.{run_method_kept, run_alone_kept}

module _ {H : Type 0} where
  returned :
      (u t : Context H) (out : Option Str)
      → (elim out as (λ x. Outcome (Context H)) [ none ↦ ok u | some what ↦ thrown what ]) ≡ ok t
      → u ≡ t
  returned u t none e = ok-injective e
  returned u t (some what) e = absurd (ground arith)

module _ {H : Type 0} (program : Program H) {R : Context H → Context H → Type 0}
    (k : Frame program R) where
  unless_thrown_kept :
      (go : Context H → Outcome (Context H × Option Str)) (r : Context H × Option Str)
      (t : Context H) (out : Option Str)
      → unless_thrown go r ≡ ok (t, out)
      → ((u : Context H) → go u ≡ ok (t, out) → R u t)
      → R r.0 t
  unless_thrown_kept go (u, none) t out e rest = rest u e
  unless_thrown_kept go (u, some what) t out e rest = subst (R u) (ground arith) (k.same u)

  act_kept :
      (a : ActorPtr) (m : Method H) (s t : Context H) (out : Option Str)
      → act program a m s ≡ ok (t, out)
      → R s t
  unfolding act
  act_kept a m s t out h = elim (Option-cases (s.objects a).ctx) [
    | inl gone ↦ run_alone_kept program k m s t out (rw (gone, act) at h)
    | inr (uc, there) ↦ run_method_kept program k true uc m s t out (rw (there, act) at h)
  ]

  handle_kept :
      (a : ActorPtr) (e : Envelope H) (s t : Context H) (out : Option Str)
      → handle program a e s ≡ ok (t, out)
      → R s t
  unfolding handle
  handle_kept a e s t out h = k.trans (k.called s (action_handle a e)) (
      act_kept a (program.handles a s.events e) (record s { events = action_handle a e ∷ s.events })
        t out h)

  pub start_kept : (a : ActorPtr) (s t : Context H) → start program a s ≡ ok t → R s t
  unfolding start
  start_kept a s t h =
      let s1 : Context H = record s { events = on_start a ∷ s.events } in
      let ((u, out), acted, last) = >>=-eq-ok (act program a (program.starts a s.events) s1) _ h in
      let same : u ≡ t = returned u t out last in
      k.trans (k.called s (on_start a))
        (subst (R s1) same (act_kept a (program.starts a s.events) s1 u out acted))

  module _ (a : ActorPtr) (b : BoxPtr) where
    after_pop_kept :
        (popped : Bool) (el : Envelope H) (s t : Context H) (out : Option Str)
        (go : Context H → Outcome (Context H × Option Str))
        → ((u : Context H) → go u ≡ ok (t, out) → R u t)
        → (elim popped as (λ x. Outcome (Context H × Option Str)) [
          | false ↦ ok (s, none)
          | true ↦ handle program a el s >>= unless_thrown go
        ])
          ≡ ok (t, out)
        → R s t
    after_pop_kept false el s t out go later e = subst (R s) (ground arith) (k.same s)
    after_pop_kept true el s t out go later e =
        let ((u, ex), handled, rest) = >>=-eq-ok (handle program a el s) (unless_thrown go) e in
        k.trans (handle_kept a el s u ex handled) (unless_thrown_kept go (u, ex) t out rest later)

    pub handle_all_kept :
        (fuel : ℕ) (el : Envelope H) (s t : Context H) (out : Option Str)
        → handle_all (context_host program a b) fuel el s ≡ ok (t, out)
        → R s t
    unfolding handle_all context_host
    handle_all_kept zero el s t out h = absurd (ground arith)
    handle_all_kept (suc fuel) el s t out h =
        let ((popped, el', mb), got, rest) = >>=-eq-ok (try_pop el (s.boxes b)) _ h in
        let s1 : Context H = record s { boxes = update s.boxes b mb } in
        k.trans (k.pops b el el' mb popped s got) (
          after_pop_kept popped el' s1 t out (λ u. handle_all (context_host program a b) fuel el' u)
            (λ u. handle_all_kept fuel el' u t out) rest)

    -- What the end of `apply` does to the actor is kept too.
    module _
        (finishes : (s : Context H) (out : Option Str)
          → R s (finish (context_host program a b) (s, out)).0) where
      finished_kept :
          (r : Context H × Option Str) (t : Context H) (out : Option Str)
          → ok (finish (context_host program a b) r) ≡ ok (t, out)
          → R r.0 t
      finished_kept r t out e =
          subst (λ (x : Context H × Option Str). R r.0 x.0) (ok-injective e) (finishes r.0 r.1)

      pub apply_kept :
          (double_checks : Bool) (text : Str) (fuel : ℕ) (s t : Context H) (out : Option Str)
          → apply (context_host program a b) double_checks text fuel s ≡ ok (t, out)
          → R s t
      unfolding apply context_host
      apply_kept double_checks text fuel s t out h = elim (Bool-cases (mailbox_empty (s.boxes b))) [
        | inl nothing ↦ finished_kept (s, none) t out (rw nothing at h)
        | inr some_mail ↦ elim (Bool-cases (double_checks && not (s.objects a).busy)) [
          | inl free ↦ absurd (ground arith)
          | inr held ↦
              let (r, handled, last) =
                >>=-eq-ok (handle_all (context_host program a b) fuel no_envelope s)
                  (λ r. ok (finish (context_host program a b) r)) (rw (some_mail, held) at h) in
              k.trans (handle_all_kept fuel no_envelope s r.0 r.1 handled)
                (finished_kept r t out last)
        ]
      ]
