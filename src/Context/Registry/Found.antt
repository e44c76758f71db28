-- ===== src/Context/Registry/Found.antt =====
-- libyaaf/context.cpp: an actor that was added is found by `get_actor` and `get_address`.
use yaaf.Common.{
  refl, [], ◌+◌, ◌<◌, ◌≡◌, ◌≢◌, ap, inl, inr, some, nat_eq, str_eq, lookup, arith, Option-cases,
  Str, beq_refl,
}
use yaaf.Common.Outcomes.{ok}
use yaaf.Address.{IdT, Address, u64_mod}
use yaaf.Context.State.{Context, Description, ActorPtr, BoxPtr, Program}
use yaaf.Context.Add.{Pending, register, add_actor}
use yaaf.Context.Registry.{IsRegistry}
use yaaf.Context.Registry.Adding.{IsPending}
use yaaf.Context.Registry.Adding.{
  register-keeps, register-Registered, register-new, register-names, register-boxes,
  insert_child-same, Registered,
}
use yaaf.Context.Registry.NewActor.{add_actor-Added, add_actor-IsRegistry, Begun-IsPending}
use yaaf.Context.Sound.Adding.{add_actor-heap}
use yaaf.Context.Lookup.{get_actor, get_actor_by_name, get_address}

module _ {H : Type 0} where
  same_actor :
      (p : Pending) (s : Context H) (j : IdT) (o d : Description)
      → p.new_id ≢ j
      → lookup j s.actors ≡ some o
      → Registered p s j d
      → d.actor ≡ o.actor
  same_actor p s j o d other there (inl (same, _)) = absurd (other same)
  same_actor p s j o d other there (inr (_, (q, found, inl is))) = ground arith
  same_actor p s j o d other there (inr (_, (q, found, inr (_, is)))) =
      ground (arith, insert_child-same p.new_id q)

  still_found :
      (p : Pending) (s : Context H)
      → IsPending p s
      → (old : Address) (o : ActorPtr) → get_actor old s ≡ some o
      → get_actor old (register p s) ≡ some o
  unfolding get_actor
  still_found p s w old o e = elim (Option-cases (lookup old.id s.actors)) [
    | inl missing ↦ absurd (ground arith)
    | inr (d, there) ↦
        let (q, found, _, _) = register-keeps p s old.id d w.no_actor there in
        let other : p.new_id ≢ old.id = λ same. clash same there in
        let actor =
          same_actor p s old.id d q other there (register-Registered p s old.id q found) in
        ground arith
  ]
    where
      clash : {d : Description} → p.new_id ≡ old.id → lookup old.id s.actors ≡ some d → ⊥
      clash same there = ground (arith, w.no_actor)

  -- The mailbox of the new actor.
  own_box :
      (program : Program H) (n : Str) (parent : Address) (a : ActorPtr) (s t : Context H)
      (addr : Address)
      → IsRegistry s
      → s.next_actor_id + 1 < u64_mod
      → add_actor program n parent a s ≡ ok (addr, t)
      → (b : BoxPtr) × (lookup addr.id t.mboxes ≡ some b)
        × ((t.boxes b).dqueue ≡ [])
        × ((j : IdT) → lookup j t.mboxes ≡ some b → j ≡ addr.id)
  own_box program n parent a s t addr v room e =
      let (p, mid, b, is, same) = add_actor-Added program n parent a s t addr e in
      let new : addr.id ≡ p.new_id = ground (arith, b.address) in
      let housed : lookup addr.id t.mboxes ≡ some mid.next_box =
        rw (new, same.mboxes, register-boxes p mid p.new_id, beq_refl p.new_id) in
      (
        mid.next_box,
        housed,
        rw
            (
              b.next_box,
              (add_actor-heap program n parent a s t addr e).1 s.next_box,
              beq_refl s.next_box,
            )
            refl,
        λ j found.
            (add_actor-IsRegistry program n parent a s t addr v room e).box_own j addr.id
              mid.next_box found housed,
      )

  -- After `add_actor` on a well-formed context with ids left the returned address is that of the new
  -- actor: it carries the next id, both the address and its path name lead to the actor, which has
  -- an empty mailbox of its own, and actors of before are still found.
  pub get_actor-add_actor :
      (program : Program H) (n : Str) (parent : Address) (a : ActorPtr) (s t : Context H)
      (addr : Address)
      → IsRegistry s
      → s.next_actor_id + 1 < u64_mod
      → add_actor program n parent a s ≡ ok (addr, t)
      → (addr.id ≡ s.next_actor_id)
        × (get_actor addr t ≡ some a)
        × (get_actor_by_name addr.pathname t ≡ some a)
        × (get_address addr.pathname t ≡ addr)
        × ((b : BoxPtr) × (lookup addr.id t.mboxes ≡ some b)
            × ((t.boxes b).dqueue ≡ [])
            × ((j : IdT) → lookup j t.mboxes ≡ some b → j ≡ addr.id))
        × ((old : Address) (o : ActorPtr) → get_actor old s ≡ some o → get_actor old t ≡ some o)
  unfolding get_actor get_actor_by_name get_address
  get_actor-add_actor program n parent a s t addr v room e =
      let (p, mid, b, is, same) = add_actor-Added program n parent a s t addr e in
      let w = Begun-IsPending a p s mid v room b in
      let found : lookup p.new_id t.actors ≡ some p.description =
        rw same.actors (register-new p mid) in
      let named : lookup p.description.name t.id_by_name ≡ some p.new_id =
        rw
          (same.id_by_name, register-names p mid p.description.name, beq_refl p.description.name) in
      (
        ground (arith, b.new_id, b.address),
        rw (is, b.address.0, found) (ap some b.actor),
        rw (is, b.address.1, named, found) (ap some b.actor),
        rw (is, b.address.1, named, found),
        own_box program n parent a s t addr v room e,
        λ old o e. rw same.actors (still_found p mid w old o (rw b.actors e)),
      )
