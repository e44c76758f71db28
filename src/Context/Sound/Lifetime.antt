-- ===== src/Context/Sound/Lifetime.antt =====
-- libyaaf/context.cpp: `start` and `stop` of a context.
use yaaf.Common.{
  lookup, str_eq, nat_eq, ℕ, ◌≤◌, ◌≡◌, refl, sym, subst, List, [], ◌∷◌, Str, arith, length,
}
use yaaf.Common.Outcomes.{ok}
use yaaf.Address.{IdT, Address}
use yaaf.Context.State.{Context, Description, Program, ActorPtr}
use yaaf.Context.Lifecycle.{construct, start, stop, stop_each, cleared}
use yaaf.Context.Lifecycle.Laws.{stop-IsRegistry, new_context-IsRegistry}
use yaaf.Context.Registry.{IsRegistry}
use yaaf.Context.Sound.{HasRoom, IsSound, Evolves, Evolves-same}
use yaaf.Context.Frame.Starting.{begin_kept}
use yaaf.Context.Sound.Handling.{Evolves-Frame}

module _ {H : Type 0} (program : Program H) where
  stop_each-heap :
      (ds : List (IdT × Description)) (s : Context H)
      → (length s.events ≤ length (stop_each program ds s).events)
        × ((stop_each program ds s).boxes ≡ s.boxes)
        × ((stop_each program ds s).next_actor_id ≡ s.next_actor_id)
        × ((stop_each program ds s).exchanges ≡ s.exchanges)
  unfolding stop_each
  stop_each-heap [] s = (omega arith, refl, refl, refl)
  stop_each-heap ((i, d) ∷ ds) s =
      let (longer, boxes, ids, kept) = stop_each-heap ds _ in
      (omega (arith, longer), boxes, ids, kept)

  pub stop-Evolves : (s t : Context H) → stop program s ≡ ok t → Evolves s t
  unfolding stop cleared lookup
  stop-Evolves s t e =
      let (longer, boxes, ids, kept) = stop_each-heap s.actors s in
      let last = cleared program (stop_each program s.actors s) in
      let is : last ≡ t = ground (arith, e) in
      subst (Evolves s) is (record {
        grows = longer;
        sound = λ room v. record {
          registry = subst IsRegistry (sym is) (stop-IsRegistry program s t v.registry e);
          counted = omega (arith, ids, longer, v.counted);
          filled = rw boxes v.filled;
          distinct = rw kept v.distinct;
        };
        lasts = λ room v. record {
          next = omega (arith, ids);
          gone = λ i bound free. refl;
          unnamed = λ i bound free n h. ground arith;
        };
      })

  construct-IsSound : (self_id : ℕ) (name : Str) → IsSound {H = H} (construct self_id name)
  unfolding construct
  construct-IsSound self_id name = record {
    registry = new_context-IsRegistry _ _ refl;
    counted = omega arith;
    filled = λ b. tt;
    distinct = tt;
  }

  roots-Evolves :
      (s : Context H) (r u y : Address)
      → Evolves s (record s { root = r; usr_root = u; sys_root = y })
  roots-Evolves s r u y =
      Evolves-same
        (record {
          next_actor_id = refl;
          actors = refl;
          id_by_name = refl;
          mboxes = refl;
          exchanges = refl;
          next_box = refl;
        })
        (omega arith) (λ f. f)

  -- A context that was started without a fault, while ids last.
  pub start-IsSound :
      (self_id : ℕ) (name : Str) (root usr sys : ActorPtr) (t : Context H)
      → start program root usr sys (construct self_id name) ≡ ok t
      → HasRoom t
      → IsSound t
  start-IsSound self_id name root usr sys t h room =
      (begin_kept program (Evolves-Frame program) roots-Evolves root usr sys
          (construct self_id name) t h).sound
        room (construct-IsSound self_id name)
