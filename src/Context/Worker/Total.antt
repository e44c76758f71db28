-- ===== src/Context/Worker/Total.antt =====
-- libyaaf/context.cpp: `mailbox_worker` meets no fault in a sound context.
use yaaf.Common.{
  suc, ◌≡◌, ◌≢◌, refl, ◌∙◌, Bool, true, false, ◌&&◌, if◌then◌else◌, Option, none, some, List, [],
  ◌∷◌, ◌++◌, nat_eq, str_eq, Str, length, lookup, All, All-map, Bool-cases, inl, inr,
  IsDistinct-found,
}
use yaaf.Common.Outcomes.{ok}
use yaaf.Address.{IdT, id_empty}
use yaaf.Payload.{no_envelope}
use yaaf.Actor.{try_lock, reset_busy}
use yaaf.Mailbox.{Mailbox, mailbox_empty}
use yaaf.Context.State.{
  Context, BoxPtr, ActorPtr, Description, ExchangeT, Manager, UserTask, accepting, stopping, update,
  apply_mail,
}
use yaaf.Context.Add.{user_post}
use yaaf.Context.Worker.{
  LockAnswers, Others, parent_actor, relay, post_apply, take_mail, visit, scan, sweep, clean,
  scan_and_sweep, mailbox_worker,
}
use yaaf.Context.Worker.Relay.{drain-all_copies}
use yaaf.Context.Registry.{IsRegistry}
use yaaf.Context.Registry.Same.{SameMaps-IsRegistry}
use yaaf.Context.Sound.Sending.{boxes-SameMaps}
use yaaf.Context.Sound.{HasRoom, IsSound}
use yaaf.Context.Sound.Relaying.{drain-Evolves}

parent_actor-some :
    (root : Bool) (p : Description) → (q : Option ActorPtr) × (parent_actor root (some p) ≡ ok q)
unfolding parent_actor
parent_actor-some true p = (none, refl)
parent_actor-some false p = (some p.actor, refl)

module _ {H : Type 0} where
  -- No actor's mailbox is the exchange's.
  abbrev IsApart : Context H → Str × ExchangeT → Type 0
  IsApart s (n, x) = (i : IdT) → lookup i s.mboxes ≢ some x.pub_box

  exchanges-IsApart : (s : Context H) → IsSound s → All (IsApart s) s.exchanges
  exchanges-IsApart s v =
      All-map s.exchanges (λ (n, x) there i e. v.registry.apart i x.pub_box n x e there refl)
        (IsDistinct-found s.exchanges v.distinct)

  relay-total :
      (xs : List (Str × ExchangeT)) (s : Context H)
      → HasRoom s
      → IsSound s
      → All (IsApart s) xs
      → (bx : BoxPtr → Mailbox H) × (relay xs s ≡ ok (record s { boxes = bx }))
  unfolding relay
  relay-total [] s room v apart = (s.boxes, refl)
  relay-total ((n, x) ∷ xs) s room v (one, apart) =
      let es = (s.boxes x.pub_box).dqueue in
      let (bx, drained, _, _) =
        drain-all_copies es x.pub_box x.subscribes no_envelope s refl (v.filled x.pub_box) one in
      let u : Context H = record s { boxes = bx } in
      let kept = drain-Evolves (suc (length es)) x.pub_box x.subscribes no_envelope s u drained in
      let (cx, rest) = relay-total xs u room (kept.sound room v) apart in (cx, rw (drained, rest))

  relay_if-total :
      (b : Bool) (s : Context H)
      → HasRoom s
      → IsSound s
      → (bx : BoxPtr → Mailbox H) × ((if b then relay s.exchanges s else ok s)
          ≡ ok (record s { boxes = bx }))
  relay_if-total false s room v = (s.boxes, refl)
  relay_if-total true s room v = relay-total s.exchanges s room v (exchanges-IsApart s v)

  -- The parent's actor is null or registered.
  abbrev pub HasParents : Context H → Type 0
  HasParents s =
      (i : IdT) (d : Description)
      → lookup i s.actors ≡ some d
      → (p : Option ActorPtr) × (parent_actor (id_empty d.parent) (lookup d.parent s.actors) ≡ ok p)

  pub registry-HasParents : (s : Context H) → IsRegistry s → HasParents s
  unfolding parent_actor id_empty
  registry-HasParents s v i d live = elim (v.family i d live) [
    | inl root ↦ (none, rw root refl)
    | inr (p, there, _) ↦ rw there (parent_actor-some (id_empty d.parent) p)
  ]

  -- Neither the actors nor the thread manager have changed.
  abbrev Keeps : Context H → Context H → Type 0
  Keeps s t = (t.actors ≡ s.actors) × (t.thread_manager ≡ s.thread_manager)

  user_post-total :
      (k : UserTask) (m : Manager) (s : Context H)
      → s.thread_manager ≡ some m
      → (t : Context H) × (user_post k s ≡ ok t) × Keeps s t
  unfolding user_post
  user_post-total k accepting s there =
      (record s { posted = s.posted ++ k ∷ [] }, rw there refl, (refl, refl))
  user_post-total k stopping s there = (s, rw there refl, (refl, refl))

  module _ (others : Others H) (m : Manager) where
    post_apply-total :
        (i : IdT) (d : Description) (b : BoxPtr) (s : Context H)
        → HasParents s
        → lookup i s.actors ≡ some d
        → s.thread_manager ≡ some m
        → (t : Context H) × (post_apply others d b s ≡ ok t) × Keeps s t
    unfolding post_apply
    post_apply-total i d b s parents live there =
        let mb = others.drains b (s.boxes b) in
        let s1 : Context H = record s { boxes = update s.boxes b mb } in
        elim (Bool-cases (mailbox_empty mb)) [
          | inl nothing ↦
              let t : Context H = record s1 {
                objects = update s1.objects d.actor (reset_busy (s1.objects d.actor));
              } in
              (t, rw nothing refl, (refl, refl))
          | inr full ↦
              let (parent, found) = parents i d live in
              let (t, posted, keeps) = user_post-total (apply_mail d parent b) m s1 there in
              (t, rw (full, found) posted, keeps)
        ]

    take_mail-total :
        (i : IdT) (d : Description) (b : BoxPtr) (s : Context H)
        → HasParents s
        → lookup i s.actors ≡ some d
        → s.thread_manager ≡ some m
        → (t : Context H) × (take_mail others d b s ≡ ok t) × Keeps s t
    unfolding take_mail
    take_mail-total i d b s parents live there =
        let (got, a) = try_lock (others.flips d.actor) (s.objects d.actor) in
        let s1 : Context H = record s { objects = update s.objects d.actor a } in
        elim (Bool-cases got) [
          | inl free ↦ rw free (post_apply-total i d b s1 parents live there)
          | inr held ↦ (s1, rw held refl, (refl, refl))
        ]

    visit-total :
        (i : IdT) (b : BoxPtr) (o : Option Description) (s : Context H) (l : List IdT)
        → lookup i s.actors ≡ o
        → HasParents s
        → s.thread_manager ≡ some m
        → (r : Context H × List IdT) × (visit others i b o (s, l) ≡ ok r) × Keeps s r.0
    unfolding visit
    visit-total i b none s l here parents there = ((s, i ∷ l), refl, (refl, refl))
    visit-total i b (some d) s l here parents there =
        let (t, took, keeps) = take_mail-total i d b s parents here there in
        ((t, l), rw took refl, keeps)

    -- The loop over the mailboxes ends without a fault.
    scan-total :
        (ms : List (IdT × BoxPtr)) (s : Context H) (l : List IdT)
        → HasParents s
        → s.thread_manager ≡ some m
        → (r : Context H × List IdT) × (scan others ms (s, l) ≡ ok r)
    unfolding scan
    scan-total [] s l parents there = ((s, l), refl)
    scan-total ((i, b) ∷ ms) s l parents there = elim (Bool-cases (mailbox_empty (s.boxes b))) [
      | inl nothing ↦ rw nothing (scan-total ms s l parents there)
      | inr full ↦
          let ((t, k), seen, (actors, manager)) =
            visit-total i b (lookup i s.actors) s l refl parents there in
          let (r, rest) = scan-total ms t k (rw actors parents) (manager ∙ there) in
          (r, rw (full, seen, rest))
    ]

    scan_and_sweep-total :
        (l : LockAnswers) (s : Context H)
        → IsRegistry s
        → s.thread_manager ≡ some m
        → (t : Context H) × (scan_and_sweep l others s ≡ ok t)
    unfolding scan_and_sweep
    scan_and_sweep-total l s v there =
        let ((u, ids), scanned) = scan-total s.mboxes s [] (registry-HasParents s v) there in
        let s2 = if l.exchange then sweep u else u in
        (if l.registry_again then clean ids s2 else s2, rw scanned refl)

    scan_if-total :
        (b : Bool) (l : LockAnswers) (s : Context H)
        → IsRegistry s
        → s.thread_manager ≡ some m
        → (t : Context H) × ((if b then scan_and_sweep l others s else ok s) ≡ ok t)
    scan_if-total false l s v there = (s, refl)
    scan_if-total true l s v there = scan_and_sweep-total l s v there

    -- A round of `mailbox_worker` on a sound context, with whatever locks it gets and whatever other
    -- threads do meanwhile, ends without a fault, while there is a thread manager.
    pub mailbox_worker-total :
        (l : LockAnswers) (s : Context H)
        → HasRoom s
        → IsSound s
        → s.thread_manager ≡ some m
        → (t : Context H) × (mailbox_worker l others s ≡ ok t)
    unfolding mailbox_worker
    mailbox_worker-total l s room v there =
        let (bx, relayed) = relay_if-total (l.exchange_shared && l.registry) s room v in
        let u : Context H = record s { boxes = bx } in
        let (t, done) =
          scan_if-total l.registry_shared l u (SameMaps-IsRegistry (boxes-SameMaps s bx) v.registry)
            there in
        (t, rw relayed done)
