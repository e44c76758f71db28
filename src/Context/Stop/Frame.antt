-- ===== src/Context/Stop/Frame.antt =====
-- libyaaf/context.cpp: what `stop_actor_impl` can change at all, as a relation between states.
use yaaf.Common.{
  ◌≡◌, refl, ◌∙◌, ◌⊎◌, inl, inr, true, if◌then◌else◌, none, some, ◌==◌, nat_eq, lookup,
  lookup-erase, contains, arith,
}
use yaaf.Address.{IdT, Address}
use yaaf.Actor.{ActorStoppingReason}
use yaaf.Context.State.{Context, Description, Program}
use yaaf.Context.Stop.{finish_stop}

module _ {H : Type 0} where
  -- From `s` to `t` ids lose their actor and their mailbox, both together, and nothing else of the
  -- maps changes.
  abbrev pub Keeps : Context H → Context H → IdT → Type 0
  Keeps s t j =
      ((lookup j t.actors ≡ lookup j s.actors) × (lookup j t.mboxes ≡ lookup j s.mboxes))
      ⊎ ((lookup j t.actors ≡ none) × (lookup j t.mboxes ≡ none))

  pub record Shrinks (s t : Context H) : Type 0 where
    pub keeps : (j : IdT) → Keeps s t j
    pub next_actor_id : t.next_actor_id ≡ s.next_actor_id
    pub id_by_name : t.id_by_name ≡ s.id_by_name
    pub exchanges : t.exchanges ≡ s.exchanges
    pub boxes : t.boxes ≡ s.boxes
    pub next_box : t.next_box ≡ s.next_box
    pub posted : t.posted ≡ s.posted
    pub thread_manager : t.thread_manager ≡ s.thread_manager

  -- No actor that is gone leaves a child behind.
  abbrev pub IsClosed : Context H → Context H → Type 0
  IsClosed s t =
      (j c : IdT) (d : Description)
      → lookup j s.actors ≡ some d
      → lookup j t.actors ≡ none
      → contains c d.children ≡ true
      → lookup c t.actors ≡ none

  pub Shrinks-refl : (s : Context H) → Shrinks s s
  Shrinks-refl s = record {
    keeps = λ j. inl (refl, refl);
    next_actor_id = refl;
    id_by_name = refl;
    exchanges = refl;
    boxes = refl;
    next_box = refl;
    posted = refl;
    thread_manager = refl;
  }

  Keeps-trans : (s t u : Context H) (j : IdT) → Keeps s t j → Keeps t u j → Keeps s u j
  Keeps-trans s t u j (inl (a, b)) (inl (c, d)) = inl (c ∙ a, d ∙ b)
  Keeps-trans s t u j (inr (a, b)) (inl (c, d)) = inr (c ∙ a, d ∙ b)
  Keeps-trans s t u j h (inr k) = inr k

  pub Shrinks-trans : {s t u : Context H} → Shrinks s t → Shrinks t u → Shrinks s u
  Shrinks-trans {s} {t} {u} h k = record {
    keeps = λ j. Keeps-trans s t u j (h.keeps j) (k.keeps j);
    next_actor_id = k.next_actor_id ∙ h.next_actor_id;
    id_by_name = k.id_by_name ∙ h.id_by_name;
    exchanges = k.exchanges ∙ h.exchanges;
    boxes = k.boxes ∙ h.boxes;
    next_box = k.next_box ∙ h.next_box;
    posted = k.posted ∙ h.posted;
    thread_manager = k.thread_manager ∙ h.thread_manager;
  }

  -- An actor that is there afterwards was there before, with the same description.
  pub Shrinks-some :
      {s t : Context H} (h : Shrinks s t) (j : IdT) (d : Description)
      → lookup j t.actors ≡ some d
      → lookup j s.actors ≡ some d
  Shrinks-some h j d e = ground (arith, h.keeps j)

  pub Shrinks-none :
      {s t : Context H} (h : Shrinks s t) (j : IdT)
      → lookup j s.actors ≡ none
      → lookup j t.actors ≡ none
  Shrinks-none h j e = ground (arith, h.keeps j)

  pub IsClosed-trans :
      {s t u : Context H} → Shrinks s t → Shrinks t u → IsClosed s t → IsClosed t u → IsClosed s u
  IsClosed-trans {s} {t} {u} h k p q j c d live gone child = elim (h.keeps j) [
    | inl (same, _) ↦ q j c d (same ∙ live) gone child
    | inr (early, _) ↦ Shrinks-none k c (p j c d live early child)
  ]

  module _ (program : Program H) (addr : Address) (reason : ActorStoppingReason) (d : Description)
      (s : Context H) where
    pub lookup-finish_stop :
        (j : IdT)
        → let t = finish_stop program addr reason d s in
          (lookup j t.actors ≡ (if addr.id == j then none else lookup j s.actors))
          × (lookup j t.mboxes ≡ (if addr.id == j then none else lookup j s.mboxes))
    unfolding finish_stop
    lookup-finish_stop j =
        ground (arith, lookup-erase addr.id j s.actors, lookup-erase addr.id j s.mboxes)

    pub finish_stop-Shrinks : Shrinks s (finish_stop program addr reason d s)
    unfolding finish_stop
    finish_stop-Shrinks = record {
      keeps = λ j. ground (arith, lookup-finish_stop j);
      next_actor_id = ground arith;
      id_by_name = ground arith;
      exchanges = ground arith;
      boxes = ground arith;
      next_box = ground arith;
      posted = ground arith;
      thread_manager = ground arith;
    }
