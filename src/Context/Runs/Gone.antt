-- ===== src/Context/Runs/Gone.antt =====
-- libyaaf/context.cpp: what `stop_actor` has removed, in all that comes after it.
use yaaf.Common.{
  ◌<◌, ◌≡◌, ◌≢◌, ◌∙◌, sym, subst, false, none, some, lookup, nat_eq, str_eq, arith, Str,
}
use yaaf.Common.Outcomes.{ok, null_deref, ok-injective}
use yaaf.Address.{IdT, Address, address_empty}
use yaaf.Payload.{Envelope}
use yaaf.Context.State.{Context, Description, Program, ActorPtr}
use yaaf.Context.Stop.{stop_actor}
use yaaf.Context.Stop.Effect.{Under}
use yaaf.Context.Lookup.{get_actor, get_address}
use yaaf.Context.Send.{send_envelope}
use yaaf.Context.Add.{add_actor}
use yaaf.Context.Registry.Race.{add_actor_unregistered}
use yaaf.Context.Registry.{IsRegistry}
use yaaf.Context.Registry.Stopping.{stop_actor-Under}
use yaaf.Context.Sound.{HasRoom, Evolves, Evolves-refl, Evolves-trans}
use yaaf.Context.Runs.{Reach, Later, at_once, further, stops_actor}
use yaaf.Context.Runs.Reached.{Step-Evolves, Reach-IsSound}

module _ {H : Type 0} (program : Program H) where
  -- An address that leads nowhere: neither it nor any name leads to its actor, and what is sent to it
  -- is dropped.
  pub record IsGone (a : Address) (s : Context H) : Type 0 where
    pub not_found : get_actor a s ≡ none
    pub not_named : (n : Str) → (get_address n s).id ≢ a.id
    pub dropped : (e : Envelope H) → send_envelope program a e s ≡ ok s

  Later-Evolves : (s t : Context H) → Later program s t → Evolves s t
  Later-Evolves s t at_once = Evolves-refl s
  Later-Evolves s u (further {t} l step) =
      Evolves-trans (Later-Evolves s t l) (Step-Evolves program t u step)

  removed :
      (addr : Address) (j : IdT) (s t : Context H)
      → IsRegistry s
      → Under s addr.id j
      → stop_actor program addr s ≡ ok t
      → lookup j t.actors ≡ none
  removed addr j s t v under stopped =
      let (x, run, gone, _) = stop_actor-Under program addr s v in
      subst (λ x. lookup j x.actors ≡ none) (ok-injective (sym run ∙ stopped)) (gone j under).0

  -- What `stop_actor` has removed has no registration in any later context.
  stays_removed :
      (addr : Address) (j : IdT) (d : Description) (s t u : Context H)
      → Reach program s
      → lookup j s.actors ≡ some d
      → Under s addr.id j
      → stop_actor program addr s ≡ ok t
      → Later program t u
      → HasRoom u
      → (0 < j) × IsRegistry u × (lookup j u.actors ≡ none)
  stays_removed addr j d s t u r there under stopped l room =
      let h = Later-Evolves t u l in
      let room_t : HasRoom t = omega (arith, room, h.grows) in
      let first = Step-Evolves program s t (stops_actor addr stopped) in
      let v = Reach-IsSound program s r (omega (arith, room_t, first.grows)) in
      let w = first.sound room_t v in
      let bound = (v.registry.ranked j d there).0 in
      (
        v.registry.positive j d there,
        (h.sound room w).registry,
        (h.lasts room w).gone j (omega (arith, bound, (first.lasts room_t v).next))
            (removed addr j s t v.registry under stopped),
      )

  -- Once `stop_actor` has returned in a context that is reached, then, whatever happens later while ids
  -- last, `add_actor` under the address of the actor or of a descendant reads a null pointer, if the
  -- address is not empty.
  pub add_actor-stop_actor :
      (addr a : Address) (d : Description) (n : Str) (o : ActorPtr) (s t u : Context H)
      → address_empty a ≡ false
      → Reach program s
      → lookup a.id s.actors ≡ some d
      → Under s addr.id a.id
      → stop_actor program addr s ≡ ok t
      → Later program t u
      → HasRoom u
      → add_actor program n a o u ≡ null_deref
  add_actor-stop_actor addr a d n o s t u given r there under stopped l room =
      add_actor_unregistered program n a o u given
        (stays_removed addr a.id d s t u r there under stopped l room).2
