-- ===== src/Context/Frame/Stopping.antt =====
-- libyaaf/context.cpp: `stop_actor_impl`, as far as a relation is kept.
use yaaf.Common.{
  ℕ, zero, suc, ◌≡◌, subst, List, [], ◌∷◌, nat_eq, arith, Option-cases, inl, inr, lookup,
}
use yaaf.Common.Outcomes.{Outcome, ok, >>=-eq-ok, ok-injective}
use yaaf.Address.{IdT, Address, address_of_id}
use yaaf.Actor.{ActorStoppingReason}
use yaaf.Context.State.{Context, Description, Program}
use yaaf.Context.Stop.{for_each, finish_stop, stop_actor_impl}

module _ {H : Type 0} {R : Context H → Context H → Type 0} (same : (s : Context H) → R s s)
    (trans : (s t u : Context H) → R s t → R t u → R s u) where
  for_each_kept :
      (f : IdT → Context H → Outcome (Context H)) (cs : List IdT)
      → ((c : IdT) (s t : Context H) → f c s ≡ ok t → R s t)
      → (s t : Context H) → for_each f cs s ≡ ok t
      → R s t
  unfolding for_each
  for_each_kept f [] each s t e = subst (R s) (ok-injective e) (same s)
  for_each_kept f (c ∷ cs) each s t e =
      let (u, first, rest) = >>=-eq-ok (f c s) (λ s'. for_each f cs s') e in
      trans s u t (each c s u first) (for_each_kept f cs each u t rest)

  -- It is enough that the end of each stop keeps the relation.
  pub stop_actor_impl_kept :
      (program : Program H) (reason : ActorStoppingReason)
      → ((addr : Address) (d : Description) (s : Context H)
          → R s (finish_stop program addr reason d s))
      → (fuel : ℕ) (addr : Address) (s t : Context H)
      → stop_actor_impl program fuel addr reason s ≡ ok t
      → R s t
  unfolding stop_actor_impl
  stop_actor_impl_kept program reason last zero addr s t e = absurd (ground arith)
  stop_actor_impl_kept program reason last (suc fuel) addr s t e =
      elim (Option-cases (lookup addr.id s.actors)) [
        | inl missing ↦
            let is : s ≡ t = ok-injective (rw (missing, stop_actor_impl) at e) in
            subst (R s) is (same s)
        | inr (d, live) ↦
            let each = λ (c : IdT). stop_actor_impl program fuel (address_of_id c) reason in
            let (u, first, ended) =
              >>=-eq-ok (for_each each d.children s)
                (λ (v : Context H). ok (finish_stop program addr reason d v))
                (rw (live, stop_actor_impl) at e) in
            let children =
              for_each_kept each d.children
                (λ c. stop_actor_impl_kept program reason last fuel (address_of_id c)) s u first in
            subst (R s) (ok-injective ended)
              (trans s u (finish_stop program addr reason d u) children (last addr d u))
      ]
