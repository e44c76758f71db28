-- ===== src/Context/Worker/Exclusive.antt =====
-- libyaaf/context.cpp: `mailbox_worker` posts at most one task for an actor at a time.
use yaaf.Common.{
  ℕ, ◌+◌, ◌≤◌, ◌≡◌, ◌⊎◌, sym, ap, subst, ◌∙◌, Bool, true, false, if◌then◌else◌, Option, none, some,
  List, [], ◌∷◌, ◌++◌, nat_eq, nat_beq_iff, ◌==◌, arith, Bool-cases, inl, inr, lookup,
}
use yaaf.Common.Outcomes.{ok, >>=-eq-ok, ok-injective}
use yaaf.Address.{IdT, id_empty}
use yaaf.Actor.{BaseActor}
use yaaf.Context.Add.{user_post}
use yaaf.Context.State.{
  Context, Description, BoxPtr, ActorPtr, UserTask, start_actor, apply_mail, update,
}
use yaaf.Context.Worker.{Others, scan, take_mail, post_apply, parent_actor, visit}
use yaaf.Mailbox.{mailbox_empty}

abbrev pub is_apply_of : ActorPtr → UserTask → Bool
is_apply_of a (start_actor b) = false
is_apply_of a (apply_mail d parent b) = d.actor == a

-- The tasks that are to apply the actor `a` to a mailbox.
unfoldable pub applies : ActorPtr → List UserTask → ℕ
applies a [] = 0
applies a (k ∷ ks) = (if is_apply_of a k then 1 else 0) + applies a ks

pub applies-append :
    (a : ActorPtr) (ks ls : List UserTask) → applies a (ks ++ ls) ≡ applies a ks + applies a ls
unfolding applies
applies-append a [] ls = omega arith
applies-append a (k ∷ ks) ls = omega (arith, applies-append a ks ls)

pub applies-one :
    (a : ActorPtr) (d : Description) (p : Option ActorPtr) (b : BoxPtr)
    → applies a (apply_mail d p b ∷ []) ≡ (if d.actor == a then 1 else 0)
unfolding applies
applies-one a d p b = omega arith

module _ {H : Type 0} where
  -- A free actor has no task waiting, a busy one at most one.
  abbrev pub IsExclusive : Context H → Type 0
  IsExclusive s = (a : ActorPtr) → applies a s.posted ≤ (if (s.objects a).busy then 1 else 0)

  -- Nobody interferes while the worker looks at an actor and its mailbox.
  abbrev pub quiet : Others H
  quiet = record { flips = λ a x. x; drains = λ b m. m }

  pub user_post-applies :
      (a : ActorPtr) (d : Description) (p : Option ActorPtr) (b : BoxPtr) (s t : Context H)
      → user_post (apply_mail d p b) s ≡ ok t
      → (t.objects ≡ s.objects)
        × (applies a t.posted ≤ applies a s.posted + (if d.actor == a then 1 else 0))
  unfolding user_post
  user_post-applies a d p b s t e = (
    ground arith,
    ground (arith, applies-append a s.posted (apply_mail d p b ∷ []), applies-one a d p b),
  )

  post_apply-applies :
      (a : ActorPtr) (d : Description) (b : BoxPtr) (s t : Context H)
      → mailbox_empty (s.boxes b) ≡ false
      → post_apply quiet d b s ≡ ok t
      → (t.objects ≡ s.objects)
        × (applies a t.posted ≤ applies a s.posted + (if d.actor == a then 1 else 0))
  unfolding post_apply
  post_apply-applies a d b s t full e =
      let s1 = record s { boxes = update s.boxes b (s.boxes b) } in
      let (p, _, posted) =
        >>=-eq-ok (parent_actor (id_empty d.parent) (lookup d.parent s.actors))
          (λ p. user_post (apply_mail d p b) s1) (rw (full, post_apply) at e) in
      user_post-applies a d p b s1 t posted

  -- The context after `try_lock` has succeeded.
  abbrev pub locked : Description → Context H → Context H
  locked d s = record s {
    objects = update s.objects d.actor (record (s.objects d.actor) { busy = true });
  }

  pub take_mail_cases :
      (d : Description) (b : BoxPtr) (s : Context H)
      → (((s.objects d.actor).busy ≡ true)
          × (take_mail quiet d b s
              ≡ ok (record s { objects = update s.objects d.actor (s.objects d.actor) })))
        ⊎ (((s.objects d.actor).busy ≡ false)
            × (take_mail quiet d b s ≡ post_apply quiet d b (locked d s)))
  unfolding take_mail
  take_mail_cases d b s = elim (Bool-cases (s.objects d.actor).busy) [
    | inl held ↦ inl (held, ground arith)
    | inr free ↦ inr (free, ground arith)
  ]

  take_mail-IsExclusive :
      (d : Description) (b : BoxPtr) (s t : Context H)
      → IsExclusive s
      → mailbox_empty (s.boxes b) ≡ false
      → take_mail quiet d b s ≡ ok t
      → IsExclusive t
  unfolding take_mail
  take_mail-IsExclusive d b s t h full e a = elim (take_mail_cases d b s) [
    | inl (held, run) ↦ stays (ok-injective (sym run ∙ e))
    | inr (free, run) ↦
        let (same, most) = post_apply-applies a d b (locked d s) t full (sym run ∙ e) in
        ground (
          arith,
          h a,
          nat_beq_iff a d.actor,
          nat_beq_iff d.actor a,
          ap (λ (f : ActorPtr → BaseActor). f a) same,
        )
  ]
    where
      stays :
          record s { objects = update s.objects d.actor (s.objects d.actor) } ≡ t
          → applies a t.posted ≤ (if (t.objects a).busy then 1 else 0)
      stays q =
          subst (λ (x : Context H). applies a x.posted ≤ (if (x.objects a).busy then 1 else 0)) q
            (ground (arith, h a, nat_beq_iff a d.actor))

  visit-IsExclusive :
      (i : IdT) (b : BoxPtr) (o : Option Description) (s t : Context H) (l m : List IdT)
      → IsExclusive s
      → mailbox_empty (s.boxes b) ≡ false
      → visit quiet i b o (s, l) ≡ ok (t, m)
      → IsExclusive t
  unfolding visit
  visit-IsExclusive i b none s t l m h full e =
      let same : s ≡ t = ground arith in subst IsExclusive same h
  visit-IsExclusive i b (some d) s t l m h full e =
      let (u, run, last) = >>=-eq-ok (take_mail quiet d b s) (λ s'. ok (s', l)) e in
      let same : u ≡ t = ground arith in
      subst IsExclusive same (take_mail-IsExclusive d b s u h full run)

  -- One look at every mailbox keeps a free actor without a task and a busy one with at most one, if no
  -- other thread interferes meanwhile.
  pub scan-IsExclusive :
      (ms : List (IdT × BoxPtr)) (s t : Context H) (l m : List IdT)
      → IsExclusive s
      → scan quiet ms (s, l) ≡ ok (t, m)
      → IsExclusive t
  unfolding scan
  scan-IsExclusive [] s t l m h e = let same : s ≡ t = ground arith in subst IsExclusive same h
  scan-IsExclusive ((i, b) ∷ ms) s t l m h e = elim (Bool-cases (mailbox_empty (s.boxes b))) [
    | inl nothing ↦ scan-IsExclusive ms s t l m h (rw (nothing, scan) at e)
    | inr full ↦
        let ((u, k), run, rest) =
          >>=-eq-ok (visit quiet i b (lookup i s.actors) (s, l)) (λ r. scan quiet ms r)
            (rw (full, scan) at e) in
        scan-IsExclusive ms u t k m (visit-IsExclusive i b (lookup i s.actors) s u l k h full run)
          rest
  ]
