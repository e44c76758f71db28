-- ===== src/Context/Registry/Race.antt =====
-- libyaaf/context.cpp: `add_actor` under a parent that is not registered, and an actor that is stopped
-- while another is being added under it.
use yaaf.Common.{◌≡◌, ◌≢◌, sym, ◌∙◌, subst, inl, inr, false, none, some, Str, nat_eq, lookup, arith}
use yaaf.Common.Outcomes.{ok, null_deref, ok-injective}
use yaaf.Address.{Address, no_id, address_empty, address_of_id}
use yaaf.Context.State.{Context, Program, ActorPtr}
use yaaf.Context.Add.{Pending, register, add_begin, add_actor}
use yaaf.Context.Stop.{stop_actor}
use yaaf.Context.Stop.Frame.{Shrinks-none}
use yaaf.Context.Registry.{IsRegistry, HasFamily}
use yaaf.Context.Registry.Adding.{IsPending, register-new, register-free}
use yaaf.Context.Registry.Stopping.{stop_actor-effect}

module _ {H : Type 0} (program : Program H) where
  -- `add_actor` under an address that is not empty and whose actor is not registered, because it was
  -- stopped for example, reads a null pointer, whatever the name and the actor.
  pub add_actor_unregistered :
      (n : Str) (parent : Address) (a : ActorPtr) (s : Context H)
      → address_empty parent ≡ false
      → lookup parent.id s.actors ≡ none
      → add_actor program n parent a s ≡ null_deref
  unfolding add_actor add_begin
  add_actor_unregistered n parent a s given missing = ground arith

  -- If the parent of a pending actor is stopped between the two critical sections of `add_actor` on
  -- a well-formed context, the new actor is registered all the same, below a parent that is not, and
  -- the context is not well formed.
  pub register_orphan :
      (p : Pending) (s t : Context H)
      → IsRegistry s
      → IsPending p s
      → p.description.parent ≢ no_id
      → stop_actor program (address_of_id p.description.parent) s ≡ ok t
      → (lookup p.new_id (register p t).actors ≡ some p.description)
        × (lookup p.description.parent (register p t).actors ≡ none)
        × ¬ IsRegistry (register p t)
  register_orphan p s t v w below stopped =
      let (u, run, h) = stop_actor-effect program (address_of_id p.description.parent) s v in
      let same : u ≡ t = ok-injective (sym run ∙ stopped) in
      let gone : lookup p.description.parent t.actors ≡ none =
        subst (λ x. lookup p.description.parent x.actors ≡ none) same h.gone in
      let free : lookup p.new_id t.actors ≡ none =
        subst (λ x. lookup p.new_id x.actors ≡ none) same
          (Shrinks-none h.shrinks p.new_id w.no_actor) in
      let missing : lookup p.description.parent (register p t).actors ≡ none =
        (register-free p t p.description.parent free).1 (not_new, gone) in
      (
        register-new p t,
        missing,
        λ bad. lost (register p t) missing (bad.family p.new_id p.description (register-new p t)),
      )
    where
      not_new : p.new_id ≢ p.description.parent
      not_new e = ground (arith, w.parented)

      lost :
          (x : Context H)
          → lookup p.description.parent x.actors ≡ none
          → HasFamily x p.new_id p.description
          → ⊥
      lost x missing (inl root) = below root
      lost x missing (inr (q, found, _)) = ground arith
