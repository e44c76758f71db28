-- ===== src/Context/Sound/Stopping.antt =====
-- libyaaf/context.cpp: `stop_actor` and `stop_actor_impl_safety` in any context.
use yaaf.Common.{suc, ◌≤◌, ◌≡◌, length, nat_eq, arith}
use yaaf.Common.Outcomes.{ok}
use yaaf.Address.{Address, address_of_id}
use yaaf.Actor.{ActorStoppingReason, manual}
use yaaf.Context.State.{Context, Description, Program}
use yaaf.Context.Stop.{finish_stop, stop_actor_impl_safety, stop_actor}
use yaaf.Context.Stop.Effect.{stop_actor_impl-StopEffect}
use yaaf.Context.Stop.Frame.{Shrinks-none}
use yaaf.Context.Registry.Stopping.{Shrinks-IsRegistry}
use yaaf.Context.Frame.Stopping.{stop_actor_impl_kept}
use yaaf.Context.Sound.{Evolves}

module _ {H : Type 0} where
  abbrev Longer : Context H → Context H → Type 0
  Longer s t = length s.events ≤ length t.events

module _ {H : Type 0} (program : Program H) (reason : ActorStoppingReason) where
  finish_stop-Longer :
      (addr : Address) (d : Description) (s : Context H)
      → Longer s (finish_stop program addr reason d s)
  unfolding finish_stop
  finish_stop-Longer addr d s = ground arith

  pub stop_actor_impl_safety-Evolves :
      (addr : Address) (s t : Context H)
      → stop_actor_impl_safety program addr reason s ≡ ok t
      → Evolves s t
  unfolding stop_actor_impl_safety
  stop_actor_impl_safety-Evolves addr s t e =
      let fuel = suc s.next_actor_id in
      let h = stop_actor_impl-StopEffect program reason fuel (address_of_id addr.id) s t e in
      let longer =
        stop_actor_impl_kept {R = Longer} (λ s. omega arith) (λ s t u h k. omega (arith, h, k))
          program reason finish_stop-Longer fuel (address_of_id addr.id) s t e in
      record {
        grows = longer;
        sound = λ room v. record {
          registry = Shrinks-IsRegistry h.shrinks h.closed v.registry;
          counted = omega (arith, h.shrinks.next_actor_id, v.counted, longer);
          filled = rw h.shrinks.boxes v.filled;
          distinct = rw h.shrinks.exchanges v.distinct;
        };
        lasts = λ room v. record {
          next = omega (arith, h.shrinks.next_actor_id);
          gone = λ i bound free. Shrinks-none h.shrinks i free;
          unnamed = λ i bound free. rw h.shrinks.id_by_name free;
        };
      }

module _ {H : Type 0} (program : Program H) where
  pub stop_actor-Evolves :
      (addr : Address) (s t : Context H) → stop_actor program addr s ≡ ok t → Evolves s t
  unfolding stop_actor
  stop_actor-Evolves addr s t e =
      stop_actor_impl_safety-Evolves program manual (address_of_id addr.id) s t e
