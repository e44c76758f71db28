-- ===== src/Context/Sound/Scanning.antt =====
-- libyaaf/context.cpp: the loop of `mailbox_worker` over the mailboxes, in any context.
use yaaf.Common.{
  ◌≡◌, refl, subst, ◌∙◌, none, some, Option, List, [], ◌∷◌, arith, Bool-cases, inl, inr, All,
  lookup, nat_eq, str_eq,
}
use yaaf.Common.Outcomes.{ok, >>=-eq-ok, ok-injective}
use yaaf.Address.{IdT, id_empty}
use yaaf.Payload.{IsFilled}
use yaaf.Mailbox.{Mailbox, mailbox_empty}
use yaaf.Actor.{BaseActor, reset_busy, try_lock}
use yaaf.Context.State.{Context, BoxPtr, ActorPtr, Description, UserTask, apply_mail, update}
use yaaf.Context.Add.{user_post}
use yaaf.Context.Worker.{Others, parent_actor, post_apply, take_mail, visit, scan}
use yaaf.Context.Registry.Same.{user_post-SameMaps}
use yaaf.Context.Sound.{Evolves, Evolves-refl, Evolves-trans, Evolves-same}
use yaaf.Context.Sound.Sending.{box-Evolves}
use yaaf.Context.Sound.Handling.{told-Evolves}

module _ {H : Type 0} where
  -- What other threads take from a mailbox leaves only envelopes that carry a value.
  abbrev pub IsTaking : Others H → Type 0
  IsTaking others =
      (b : BoxPtr) (m : Mailbox H) → All IsFilled m.dqueue → All IsFilled (others.drains b m).dqueue

  -- A look at a mailbox changes neither the actors nor who has a mailbox.
  pub record Looked (s t : Context H) : Type 0 where
    pub evolves : Evolves s t
    pub actors : t.actors ≡ s.actors
    pub mboxes : t.mboxes ≡ s.mboxes

  pub Looked-refl : (s : Context H) → Looked s s
  Looked-refl s = record { evolves = Evolves-refl s; actors = refl; mboxes = refl }

  pub Looked-trans : {s t u : Context H} → Looked s t → Looked t u → Looked s u
  Looked-trans h k = record {
    evolves = Evolves-trans h.evolves k.evolves;
    actors = k.actors ∙ h.actors;
    mboxes = k.mboxes ∙ h.mboxes;
  }

  user_post-Looked : (k : UserTask) (s t : Context H) → user_post k s ≡ ok t → Looked s t
  unfolding user_post
  user_post-Looked k s t h = record {
    evolves = Evolves-same (user_post-SameMaps k s t h) (ground arith) (λ f b. ground (arith, f b));
    actors = ground arith;
    mboxes = ground arith;
  }

  objects-Looked :
      (s : Context H) (ob : ActorPtr → BaseActor) → Looked s (record s { objects = ob })
  objects-Looked s ob = record {
    evolves = told-Evolves s ob s.events (omega arith);
    actors = refl;
    mboxes = refl;
  }

  -- `to_remove` holds no actors.
  abbrev pub Unregistered : Context H → List IdT → Type 0
  Unregistered s ids = All (λ i. lookup i s.actors ≡ none) ids

  module _ (others : Others H) (taking : IsTaking others) where
    box-Looked :
        (b : BoxPtr) (s : Context H)
        → Looked s (record s { boxes = update s.boxes b (others.drains b (s.boxes b)) })
    box-Looked b s = record {
      evolves = box-Evolves b (others.drains b (s.boxes b)) s (taking b (s.boxes b));
      actors = refl;
      mboxes = refl;
    }

    post_apply-Looked :
        (d : Description) (b : BoxPtr) (s t : Context H)
        → post_apply others d b s ≡ ok t
        → Looked s t
    unfolding post_apply
    post_apply-Looked d b s t h =
        let mb = others.drains b (s.boxes b) in
        let s1 : Context H = record s { boxes = update s.boxes b mb } in
        elim (Bool-cases (mailbox_empty mb)) [
          | inl nothing ↦ subst (Looked s) (ok-injective (rw nothing at h)) (
              Looked-trans (box-Looked b s)
                (objects-Looked s1 (update s1.objects d.actor (reset_busy (s1.objects d.actor)))))
          | inr full ↦
              let (parent, _, posted) =
                >>=-eq-ok (parent_actor (id_empty d.parent) (lookup d.parent s1.actors))
                  (λ parent. user_post (apply_mail d parent b) s1) (rw full at h) in
              Looked-trans (box-Looked b s) (user_post-Looked (apply_mail d parent b) s1 t posted)
        ]

    take_mail-Looked :
        (d : Description) (b : BoxPtr) (s t : Context H)
        → take_mail others d b s ≡ ok t
        → Looked s t
    unfolding take_mail
    take_mail-Looked d b s t h =
        let (got, a) = try_lock (others.flips d.actor) (s.objects d.actor) in
        let s1 : Context H = record s { objects = update s.objects d.actor a } in
        let locked = objects-Looked s (update s.objects d.actor a) in
        elim (Bool-cases got) [
          | inl free ↦ Looked-trans locked (post_apply-Looked d b s1 t (rw free at h))
          | inr held ↦ subst (Looked s) (ok-injective (rw held at h)) locked
        ]

    visit-Looked :
        (i : IdT) (b : BoxPtr) (o : Option Description) (s : Context H) (l : List IdT)
        (r : Context H × List IdT)
        → lookup i s.actors ≡ o
        → visit others i b o (s, l) ≡ ok r
        → Unregistered s l
        → Looked s r.0 × Unregistered r.0 r.1
    unfolding visit
    visit-Looked i b none s l r here h gone =
        let P = λ (x : Context H × List IdT). Looked s x.0 × Unregistered x.0 x.1 in
        subst P (ok-injective h) (Looked-refl s, (here, gone))
    visit-Looked i b (some d) s l r here h gone =
        let P = λ (x : Context H × List IdT). Looked s x.0 × Unregistered x.0 x.1 in
        let (u, took, last) = >>=-eq-ok (take_mail others d b s) (λ u. ok (u, l)) h in
        let looked = take_mail-Looked d b s u took in
        subst P (ok-injective last) (looked, rw looked.actors gone)

    pub scan-Looked :
        (ms : List (IdT × BoxPtr)) (s : Context H) (l : List IdT) (r : Context H × List IdT)
        → scan others ms (s, l) ≡ ok r
        → Unregistered s l
        → Looked s r.0 × Unregistered r.0 r.1
    unfolding scan
    scan-Looked [] s l r h gone =
        let P = λ (x : Context H × List IdT). Looked s x.0 × Unregistered x.0 x.1 in
        subst P (ok-injective h) (Looked-refl s, gone)
    scan-Looked ((i, b) ∷ ms) s l r h gone = elim (Bool-cases (mailbox_empty (s.boxes b))) [
      | inl nothing ↦ scan-Looked ms s l r (rw (nothing, scan) at h) gone
      | inr full ↦
          let ((u, k), seen, rest) =
            >>=-eq-ok (visit others i b (lookup i s.actors) (s, l)) (λ q. scan others ms q)
              (rw (full, scan) at h) in
          let (one, left) = visit-Looked i b (lookup i s.actors) s l (u, k) refl seen gone in
          let (more, last) = scan-Looked ms u k r rest left in (Looked-trans one more, last)
    ]
