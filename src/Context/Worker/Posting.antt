-- ===== src/Context/Worker/Posting.antt =====
-- libyaaf/context.cpp: `mailbox_worker` posts a task for every free actor with mail.
use yaaf.Common.{
  ◌+◌, ◌≤◌, ◌<◌, ◌≡◌, ◌⊎◌, refl, sym, ap, subst, ◌∙◌, true, false, if◌then◌else◌, Option, none,
  some, List, [], ◌∷◌, ◌++◌, nat_eq, nat_beq_iff, ◌==◌, arith, Bool-cases, beq→eq, inl, inr, lookup,
}
use yaaf.Common.Outcomes.{ok, >>=-eq-ok, ok-injective}
use yaaf.Address.{IdT, id_empty}
use yaaf.Mailbox.{mailbox_empty}
use yaaf.Context.Add.{user_post}
use yaaf.Context.State.{Context, Description, BoxPtr, ActorPtr, apply_mail, accepting, update}
use yaaf.Context.Worker.{scan, take_mail, post_apply, parent_actor, visit}
use yaaf.Context.Worker.Exclusive.{
  applies, applies-append, applies-one, quiet, locked, take_mail_cases, IsExclusive,
  scan-IsExclusive,
}

module _ {H : Type 0} (a : ActorPtr) where
  -- The actor is free, or a task to apply it is waiting.
  abbrev IsServed : Context H → Type 0
  IsServed s = ((s.objects a).busy ≡ false) ⊎ (0 < applies a s.posted)

  -- What a look at a mailbox leaves as it is.
  record Looks (s t : Context H) : Type 0 where
    manager : t.thread_manager ≡ s.thread_manager
    actors : t.actors ≡ s.actors
    boxes : (b : BoxPtr) → mailbox_empty (t.boxes b) ≡ mailbox_empty (s.boxes b)
    served : IsServed s → IsServed t
    longer : applies a s.posted ≤ applies a t.posted

  Looks-refl : (s : Context H) → Looks s s
  Looks-refl s = record {
    manager = refl;
    actors = refl;
    boxes = λ b. refl;
    served = λ h. h;
    longer = omega arith;
  }

  Looks-trans : {s t u : Context H} → Looks s t → Looks t u → Looks s u
  Looks-trans h k = record {
    manager = k.manager ∙ h.manager;
    actors = k.actors ∙ h.actors;
    boxes = λ b. k.boxes b ∙ h.boxes b;
    served = λ r. k.served (h.served r);
    longer = omega (arith, h.longer, k.longer);
  }

  post_apply-posts :
      (d : Description) (b : BoxPtr) (s t : Context H)
      → s.thread_manager ≡ some accepting
      → mailbox_empty (s.boxes b) ≡ false
      → post_apply quiet d b s ≡ ok t
      → (t.thread_manager ≡ s.thread_manager)
        × (t.actors ≡ s.actors)
        × (t.objects ≡ s.objects)
        × ((c : BoxPtr) → t.boxes c ≡ s.boxes c)
        × (applies a t.posted ≡ applies a s.posted + (if d.actor == a then 1 else 0))
  unfolding post_apply user_post
  post_apply-posts d b s t there full e =
      let s1 : Context H = record s { boxes = update s.boxes b (s.boxes b) } in
      let (p, _, posted) =
        >>=-eq-ok (parent_actor (id_empty d.parent) (lookup d.parent s.actors))
          (λ p. user_post (apply_mail d p b) s1) (rw (full, post_apply) at e) in
      let is : record s1 { posted = s.posted ++ apply_mail d p b ∷ [] } ≡ t =
        ground (arith, posted, there) in
      let P = λ (t : Context H).
        (t.thread_manager ≡ s.thread_manager)
        × (t.actors ≡ s.actors)
        × (t.objects ≡ s.objects)
        × ((c : BoxPtr) → t.boxes c ≡ s.boxes c)
        × (applies a t.posted ≡ applies a s.posted + (if d.actor == a then 1 else 0)) in
      subst P is (
        refl,
        refl,
        refl,
        λ c. ground (arith, nat_beq_iff c b),
        omega (arith, applies-append a s.posted (apply_mail d p b ∷ []), applies-one a d p b),
      )

  -- A look at an actor's mailbox with mail, and that the actor has a task then, if it was served.
  take_mail-Looks :
      (d : Description) (b : BoxPtr) (s t : Context H)
      → s.thread_manager ≡ some accepting
      → mailbox_empty (s.boxes b) ≡ false
      → take_mail quiet d b s ≡ ok t
      → Looks s t × (d.actor ≡ a → IsServed s → 0 < applies a t.posted)
  take_mail-Looks d b s t there full e = elim (take_mail_cases d b s) [
    | inl (held, run) ↦
        let P =
          λ (t : Context H). Looks s t × (d.actor ≡ a → IsServed s → 0 < applies a t.posted) in
        subst P (ok-injective (sym run ∙ e)) (
          record {
            manager = refl;
            actors = refl;
            boxes = λ c. refl;
            served = λ h. ground (arith, h, nat_beq_iff a d.actor);
            longer = omega arith;
          },
          λ is h. ground (arith, is, h, held),
        )
    | inr (free, run) ↦
        let (manager, actors, objects, boxes, posted) =
          post_apply-posts d b (locked d s) t there full (sym run ∙ e) in
        (
          record {
            manager = manager;
            actors = actors;
            boxes = λ c. ap mailbox_empty (boxes c);
            served = λ h. ground (
              arith,
              h,
              ap (λ f. f a) objects,
              nat_beq_iff a d.actor,
              nat_beq_iff d.actor a,
              posted,
            );
            longer = omega (arith, posted);
          },
          λ is h. ground (arith, is, posted, nat_beq_iff d.actor a),
        )
  ]

  visit-Looks :
      (i : IdT) (b : BoxPtr) (o : Option Description) (s : Context H) (l : List IdT)
      (r : Context H × List IdT)
      → s.thread_manager ≡ some accepting
      → mailbox_empty (s.boxes b) ≡ false
      → visit quiet i b o (s, l) ≡ ok r
      → Looks s r.0
        × ((d : Description) → o ≡ some d → d.actor ≡ a → IsServed s → 0 < applies a r.0.posted)
  unfolding visit
  visit-Looks i b none s l r there full e = (
    subst (λ (x : Context H × List IdT). Looks s x.0) (ok-injective e) (Looks-refl s),
    λ d is. absurd (ground arith),
  )
  visit-Looks i b (some d) s l r there full e =
      let (u, took, last) = >>=-eq-ok (take_mail quiet d b s) (λ u. ok (u, l)) e in
      let P = λ (x : Context H × List IdT).
        Looks s x.0
        × ((d' : Description)
            → some d ≡ some d'
            → d'.actor ≡ a
            → IsServed s
            → 0 < applies a x.0.posted) in
      let (looks, posts) = take_mail-Looks d b s u there full took in
      subst P (ok-injective last) (looks, λ d' is own. posts (ground (arith, is, own)))

  scan-Looks :
      (ms : List (IdT × BoxPtr)) (s : Context H) (l : List IdT) (r : Context H × List IdT)
      → s.thread_manager ≡ some accepting
      → scan quiet ms (s, l) ≡ ok r
      → Looks s r.0
  unfolding scan
  scan-Looks [] s l r there e =
      subst (λ (x : Context H × List IdT). Looks s x.0) (ok-injective e) (Looks-refl s)
  scan-Looks ((i, b) ∷ ms) s l r there e = elim (Bool-cases (mailbox_empty (s.boxes b))) [
    | inl nothing ↦ scan-Looks ms s l r there (rw (nothing, scan) at e)
    | inr full ↦
        let ((u, k), seen, rest) =
          >>=-eq-ok (visit quiet i b (lookup i s.actors) (s, l)) (λ q. scan quiet ms q)
            (rw (full, scan) at e) in
        let (looks, _) = visit-Looks i b (lookup i s.actors) s l (u, k) there full seen in
        Looks-trans looks (scan-Looks ms u k r (looks.manager ∙ there) rest)
  ]

  -- After the loop over the mailboxes a registered actor that was free, or had a task, and has mail has
  -- a task, if the thread manager takes tasks and no other thread interferes.
  scan-posts :
      (ms : List (IdT × BoxPtr)) (s : Context H) (l : List IdT) (r : Context H × List IdT) (i : IdT)
      (b : BoxPtr) (d : Description)
      → s.thread_manager ≡ some accepting
      → IsServed s
      → lookup i ms ≡ some b
      → lookup i s.actors ≡ some d
      → d.actor ≡ a
      → mailbox_empty (s.boxes b) ≡ false
      → scan quiet ms (s, l) ≡ ok r
      → 0 < applies a r.0.posted
  unfolding scan lookup
  scan-posts [] s l r i b d there served found live own full e = absurd (ground arith)
  scan-posts ((j, c) ∷ ms) s l r i b d there served found live own full e =
      elim (Bool-cases (mailbox_empty (s.boxes c))) [
        | inl nothing ↦ elim (Bool-cases (j == i)) [
          | inl same ↦ absurd (ground (arith, found, same, nothing, full))
          | inr other ↦
              scan-posts ms s l r i b d there served (ground (arith, found, other)) live own full
                (rw (nothing, scan) at e)
        ]
        | inr mail ↦
            let ((u, k), seen, rest) =
              >>=-eq-ok (visit quiet j c (lookup j s.actors) (s, l)) (λ q. scan quiet ms q)
                (rw (mail, scan) at e) in
            let (looks, posts) = visit-Looks j c (lookup j s.actors) s l (u, k) there mail seen in
            let after = scan-Looks ms u k r (looks.manager ∙ there) rest in
            elim (Bool-cases (j == i)) [
              | inl same ↦
                  let met : lookup j s.actors ≡ some d =
                    subst (λ (k : IdT). lookup k s.actors ≡ some d) (sym (beq→eq j i same)) live in
                  omega (arith, after.longer, posts d met own served)
              | inr other ↦
                  scan-posts ms u k r i b d (looks.manager ∙ there) (looks.served served)
                    (rw other at found) (rw looks.actors live) own (looks.boxes b ∙ full) rest
            ]
      ]

module _ {H : Type 0} where
  -- If a free actor has no task waiting and a busy one at most one, then after `mailbox_worker` has
  -- looked at every mailbox once a registered actor that was free and has mail is busy and has
  -- exactly one task waiting, if the thread manager takes tasks and no other thread interferes.
  pub scan-one_task :
      (s t : Context H) (l : List IdT) (i : IdT) (b : BoxPtr) (d : Description)
      → s.thread_manager ≡ some accepting
      → IsExclusive s
      → lookup i s.mboxes ≡ some b
      → lookup i s.actors ≡ some d
      → (s.objects d.actor).busy ≡ false
      → mailbox_empty (s.boxes b) ≡ false
      → scan quiet s.mboxes (s, []) ≡ ok (t, l)
      → ((t.objects d.actor).busy ≡ true) × (applies d.actor t.posted ≡ 1)
  scan-one_task s t l i b d there h found live free full e =
      let most = scan-IsExclusive s.mboxes s t [] l h e d.actor in
      let least =
        scan-posts d.actor s.mboxes s [] (t, l) i b d there (inl free) found live refl full e in
      (ground (arith, most, least), ground (arith, most, least))
