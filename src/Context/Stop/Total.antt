-- ===== src/Context/Stop/Total.antt =====
-- libyaaf/context.cpp: `stop_actor_impl` ends, and what `stop_actor` does to the registry.
use yaaf.Common.{
  ℕ, zero, suc, ◌+◌, ◌<◌, ◌≡◌, refl, ◌∙◌, inl, inr, true, false, ◌||◌, some, ◌==◌, nat_eq, lookup,
  contains, arith, List, [], ◌∷◌, Option-cases, beq_refl,
}
use yaaf.Common.Outcomes.{Outcome, ok}
use yaaf.Address.{IdT, Address, address_of_id}
use yaaf.Actor.{ActorStoppingReason}
use yaaf.Context.State.{Context, Description, Program}
use yaaf.Context.Stop.{for_each, finish_stop, stop_actor_impl}
use yaaf.Context.Stop.Frame.{Shrinks, Shrinks-some}
use yaaf.Context.Stop.Effect.{stop_actor_impl-StopEffect}

module _ {H : Type 0} where
  -- A child was added after its parent, and every id was given out by `_next_actor_id`.
  abbrev pub IsRanked : Context H → Type 0
  IsRanked s =
      (i : IdT) (d : Description)
      → lookup i s.actors ≡ some d
      → (i < s.next_actor_id)
        × ((c : IdT) → contains c d.children ≡ true → (i < c) × (c < s.next_actor_id))

  pub Shrinks-IsRanked : {s t : Context H} → Shrinks s t → IsRanked s → IsRanked t
  Shrinks-IsRanked h r i d live = rw h.next_actor_id (r i d (Shrinks-some h i d live))

  for_each-total :
      (P : Context H → Type 0) (f : IdT → Context H → Outcome (Context H)) (cs : List IdT)
      → ((c : IdT) (s : Context H)
          → contains c cs ≡ true
          → P s
          → (t : Context H) × (f c s ≡ ok t) × P t)
      → (s : Context H) → P s
      → (t : Context H) × (for_each f cs s ≡ ok t)
  unfolding for_each contains
  for_each-total P f [] each s p = (s, refl)
  for_each-total P f (c ∷ cs) each s p =
      let (u, first, q) = each c s (rw (beq_refl c)) p in
      let (t, rest) =
        for_each-total P f cs
          (λ b v m.
            each b v
              (elim (c == b) as (λ x. x || contains b cs ≡ true) [ true ↦ refl | false ↦ m ]))
          u q in
      (t, rw (first, rest))

module _ {H : Type 0} (program : Program H) (reason : ActorStoppingReason) where
  -- If ids grow from parent to child and stay below the next one, `stop_actor_impl` ends without a
  -- fault on any fuel above zero that exceeds the next id when the actor's id is added to it.
  pub stop_actor_impl-total :
      (fuel : ℕ) (addr : Address) (s : Context H)
      → IsRanked s
      → s.next_actor_id < fuel + addr.id
      → 0 < fuel
      → (t : Context H) × (stop_actor_impl program fuel addr reason s ≡ ok t)
  unfolding stop_actor_impl
  stop_actor_impl-total zero addr s r lt pos = absurd (omega arith)
  stop_actor_impl-total (suc fuel) addr s r lt pos = elim (Option-cases (lookup addr.id s.actors)) [
    | inl missing ↦ (s, rw (missing, stop_actor_impl))
    | inr (d, live) ↦
        let each = λ (c : IdT). stop_actor_impl program fuel (address_of_id c) reason in
        let (u, loop) =
          for_each-total (λ v. IsRanked v × (v.next_actor_id ≡ s.next_actor_id)) each d.children
            (λ c v m (rv, same).
              let order = (r addr.id d live).1 c m in
              let (t, run) =
                stop_actor_impl-total fuel (address_of_id c) v rv (omega arith) (omega arith) in
              let h =
                (stop_actor_impl-StopEffect program reason fuel (address_of_id c) v t
                  run).shrinks in
              (t, run, (Shrinks-IsRanked h rv, h.next_actor_id ∙ same)))
            s (r, refl) in
        (finish_stop program addr reason d u, rw (live, stop_actor_impl, loop))
  ]
