-- ===== src/Context/Registry/Stopping.antt =====
-- libyaaf/context.cpp: `stop_actor` on a well-formed context.
use yaaf.Common.{
  suc, ◌<◌, ◌≡◌, sym, ◌∙◌, subst, inl, inr, none, some, nat_eq, str_eq, lookup, arith, Option-cases,
  Str,
}
use yaaf.Common.Outcomes.{ok, ok-injective}
use yaaf.Address.{IdT, Address, address_of_id}
use yaaf.Actor.{manual}
use yaaf.Context.State.{Context, Description, Program, BoxPtr}
use yaaf.Context.Stop.{stop_actor_impl_safety, stop_actor}
use yaaf.Context.Stop.Frame.{Shrinks, Shrinks-some, IsClosed}
use yaaf.Context.Stop.Effect.{Under, here, below, StopEffect, stop_actor_impl-StopEffect}
use yaaf.Context.Stop.Total.{Shrinks-IsRanked, stop_actor_impl-total}
use yaaf.Context.Registry.{IsRegistry, HasFamily}

module _ {H : Type 0} where
  Under-gone :
      {s : Context H} (t : Context H) {i j : IdT}
      → IsClosed s t
      → lookup i t.actors ≡ none
      → Under s i j
      → lookup j t.actors ≡ none
  Under-gone t h gone (here p) = subst (λ k. lookup k t.actors ≡ none) p gone
  Under-gone t h gone (below {i} c d live child u) = Under-gone t h (h i c d live gone child) u

  Shrinks-box :
      {s t : Context H} (h : Shrinks s t) (i : IdT) (b : BoxPtr)
      → lookup i t.mboxes ≡ some b
      → lookup i s.mboxes ≡ some b
  Shrinks-box h i b e = ground (arith, h.keeps i)

  -- A child whose parent is gone would be gone too.
  family_kept :
      {s t : Context H} (h : Shrinks s t)
      → IsClosed s t
      → IsRegistry s
      → (i : IdT) (d : Description) → lookup i t.actors ≡ some d
      → HasFamily t i d
  family_kept {s} {t} h closed v i d live = elim (v.family i d (Shrinks-some h i d live)) [
    | inl orphan ↦ inl orphan
    | inr (p, was, child) ↦ elim (Option-cases (lookup d.parent t.actors)) [
      | inl gone ↦ absurd (lost (closed d.parent i p was gone child))
      | inr (q, is) ↦ inr (p, ground (arith, h.keeps d.parent), child)
    ]
  ]
    where
      lost : lookup i t.actors ≡ none → ⊥
      lost e = ground arith

  name_kept :
      {s t : Context H} (h : Shrinks s t)
      → IsRegistry s
      → (n : Str) (i : IdT) → lookup n t.id_by_name ≡ some i
      → (i < t.next_actor_id) × ((d : Description) → lookup i t.actors ≡ some d → d.name ≡ n)
  name_kept h v n i e =
      let (bound, right) = v.named n i (rw h.id_by_name at e) in
      (rw h.next_actor_id bound, λ d live. right d (Shrinks-some h i d live))

  pub Shrinks-IsRegistry :
      {s t : Context H} → Shrinks s t → IsClosed s t → IsRegistry s → IsRegistry t
  Shrinks-IsRegistry {s} {t} h closed v = record {
    ranked = Shrinks-IsRanked h v.ranked;
    started = rw h.next_actor_id v.started;
    positive = λ i d e. v.positive i d (Shrinks-some h i d e);
    mailed = λ i e. ground (arith, h.keeps i, v.mailed i);
    housed = λ i e. ground (arith, h.keeps i, v.housed i);
    addressed = λ i d e. v.addressed i d (Shrinks-some h i d e);
    family = family_kept h closed v;
    named = λ n i e. name_kept h v n i e;
    box_bound = λ i b e. rw h.next_box (v.box_bound i b (Shrinks-box h i b e));
    pub_bound = λ n x e. rw h.next_box (v.pub_bound n x (rw h.exchanges at e));
    box_own = λ i j b p q. v.box_own i j b (Shrinks-box h i b p) (Shrinks-box h j b q);
    pub_own = rw h.exchanges v.pub_own;
    apart = λ i b n x p q. v.apart i b n x (Shrinks-box h i b p) (rw h.exchanges at q);
  }

  survivor :
      {s t : Context H} {i : IdT}
      → IsRegistry s
      → StopEffect s i t
      → (j : IdT) → ¬ Under s i j
      → (lookup j t.actors ≡ lookup j s.actors) × (lookup j t.mboxes ≡ lookup j s.mboxes)
  survivor {s} {t} v h j apart = elim (h.shrinks.keeps j) [
    | inl same ↦ same
    | inr (gone, unboxed) ↦ elim (Option-cases (lookup j s.actors)) [
      | inl absent ↦ (gone ∙ sym absent, unboxed ∙ sym (v.mailed j absent))
      | inr (d, live) ↦ absurd (apart (h.under j d live gone))
    ]
  ]

module _ {H : Type 0} (program : Program H) where
  pub stop_actor-effect :
      (addr : Address) (s : Context H)
      → IsRegistry s
      → (t : Context H) × (stop_actor program addr s ≡ ok t) × StopEffect s addr.id t
  unfolding stop_actor stop_actor_impl_safety
  stop_actor-effect addr s v =
      let fuel = suc s.next_actor_id in
      let (t, run) =
        stop_actor_impl-total program manual fuel (address_of_id addr.id) s v.ranked (omega arith)
          (omega arith) in
      (t, run, stop_actor_impl-StopEffect program manual fuel (address_of_id addr.id) s t run)

  -- On a well-formed context `stop_actor` ends without a fault, and removes exactly the actor and
  -- its descendants: these have neither a registration nor a mailbox afterwards, and every other id
  -- has the ones that it had.
  pub stop_actor-Under :
      (addr : Address) (s : Context H)
      → IsRegistry s
      → (t : Context H) × (stop_actor program addr s ≡ ok t)
        × ((j : IdT) → Under s addr.id j → (lookup j t.actors ≡ none) × (lookup j t.mboxes ≡ none))
        × ((j : IdT)
            → ¬ Under s addr.id j
            → (lookup j t.actors ≡ lookup j s.actors) × (lookup j t.mboxes ≡ lookup j s.mboxes))
  stop_actor-Under addr s v =
      let (t, run, h) = stop_actor-effect addr s v in
      let w = Shrinks-IsRegistry h.shrinks h.closed v in
      (
        t,
        run,
        λ j u. let gone = Under-gone t h.closed h.gone u in (gone, w.mailed j gone),
        survivor v h,
      )

  -- `stop_actor` that returns keeps a context well formed.
  pub stop_actor-IsRegistry :
      (addr : Address) (s t : Context H)
      → IsRegistry s
      → stop_actor program addr s ≡ ok t
      → IsRegistry t
  stop_actor-IsRegistry addr s t v e =
      let (u, run, h) = stop_actor-effect addr s v in
      subst IsRegistry (ok-injective (sym run ∙ e)) (Shrinks-IsRegistry h.shrinks h.closed v)
