-- ===== src/Context/Stop.antt =====
-- libyaaf/context.cpp: `stop_actor`, `stop_actor_impl_safety` and `stop_actor_impl`.
pub mod Frame
pub mod Effect
pub mod Total
use yaaf.Common.{
  ℕ, zero, suc, not, if◌then◌else◌, Option, none, some, List, [], ◌∷◌, nat_eq, lookup, erase,
}
use yaaf.Common.Outcomes.{Outcome, ok, out_of_fuel, ◌>>=◌}
use yaaf.Address.{IdT, Address, id_empty, address_of_id}
use yaaf.Actor.{ActorStoppingReason, manual}
use yaaf.Context.State.{Context, Description, Program, on_stop, on_child_stopped, update}

-- `for (auto &&c : desc->children) stop_actor_impl(c, reason)`.
unfoldable pub for_each {ℓ} : {S : Type ℓ} → (IdT → S → Outcome S) → List IdT → S → Outcome S
for_each f [] s = ok s
for_each f (c ∷ cs) s = f c s >>= λ s'. for_each f cs s'

module _ {H : Type 0} (program : Program H) where
  call_on_stop : Description → Context H → Context H
  call_on_stop d s = record s {
    objects = update s.objects d.actor (program.stops d.actor (s.objects d.actor));
    events = on_stop d.actor ∷ s.events;
  }

  tell : Option Description → Address → ActorStoppingReason → Context H → Context H
  tell none addr reason s = s
  tell (some p) addr reason s = record s {
    events = on_child_stopped p.actor addr reason ∷ s.events;
  }

  tell_parent : Description → Address → ActorStoppingReason → Context H → Context H
  unfolding tell id_empty
  tell_parent d addr reason s =
      if not (id_empty d.parent) then tell (lookup d.parent s.actors) addr reason s else s

  forget : IdT → Context H → Context H
  forget id s = record s { mboxes = erase id s.mboxes; actors = erase id s.actors }

  -- What follows the loop over the children.
  unfoldable pub finish_stop : Address → ActorStoppingReason → Description → Context H → Context H
  unfolding call_on_stop tell_parent forget
  finish_stop addr reason d s = forget addr.id (tell_parent d addr reason (call_on_stop d s))

  -- `stop_actor_impl`, which calls itself for the children.
  unfoldable pub stop_actor_impl :
      ℕ → Address → ActorStoppingReason → Context H → Outcome (Context H)
  unfolding for_each finish_stop
  stop_actor_impl zero addr reason s = out_of_fuel
  stop_actor_impl (suc fuel) addr reason s =
      let each = λ (c : IdT). stop_actor_impl fuel (address_of_id c) reason in
      elim (lookup addr.id s.actors) [
        | none ↦ ok s
        | some d ↦ for_each each d.children s >>= λ s'. ok (finish_stop addr reason d s')
      ]

  -- The lock is held throughout. The address is made anew from the id. Ids grow from a parent to its
  -- children and stay below `_next_actor_id`, so that many calls deep is enough.
  unfoldable pub stop_actor_impl_safety :
      Address → ActorStoppingReason → Context H → Outcome (Context H)
  unfolding stop_actor_impl
  stop_actor_impl_safety addr reason s =
      stop_actor_impl (suc s.next_actor_id) (address_of_id addr.id) reason s

  unfoldable pub stop_actor : Address → Context H → Outcome (Context H)
  unfolding stop_actor_impl_safety
  stop_actor addr s = stop_actor_impl_safety (address_of_id addr.id) manual s
