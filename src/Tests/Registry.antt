-- ===== src/Tests/Registry.antt =====
-- The registry of a context that was started: add an actor, look it up, stop one.
use yaaf.Common.{
  ℕ, ◌+◌, ◌<◌, ◌≡◌, ◌≢◌, refl, [], none, some, lookup, insert, adjust, erase, nat_eq, str_eq, arith,
}
use yaaf.Common.Outcomes.{ok}
use yaaf.Address.{IdT, Address, address_of_id, no_address, no_id, u64_mod}
use yaaf.Actor.{manual, reinit}
use yaaf.Context.State.{BoxPtr, Context, Description}
use yaaf.Context.Add.{Pending, register, add_begin}
use yaaf.Context.Stop.{stop_actor_impl, stop_actor_impl_safety, stop_actor}
use yaaf.Context.Stop.Effect.{Under, StopEffect, stop_actor_impl-StopEffect}
use yaaf.Context.Stop.Total.{stop_actor_impl-total}
use yaaf.Context.User.{run_method}
use yaaf.Context.Lookup.{get_actor, get_actor_by_name, get_address}
use yaaf.Context.Lifecycle.{construct, start}
use yaaf.Context.Supervision.{on_actor_error}
use yaaf.Context.Supervision.Errors.{Decided, on_actor_error_lem}
use yaaf.Context.Registry.{IsRegistry}
use yaaf.Context.Registry.Adding.{IsPending}
use yaaf.Context.Registry.NewActor.{add_begin-IsPending, add_actor-IsRegistry}
use yaaf.Context.Registry.Found.{get_actor-add_actor}
use yaaf.Context.Registry.Stopping.{stop_actor-Under, stop_actor-IsRegistry}
use yaaf.Context.Registry.Race.{register_orphan}
use yaaf.Tests.Data.{
  idle, value_or, started, started-IsRegistry, usr_address, child_name, added, added_run,
}

started_next : started.next_actor_id + 1 < u64_mod
unfolding started start construct lookup insert adjust
started_next = omega arith

add_actor-IsRegistry_example : IsRegistry added.1
add_actor-IsRegistry_example =
    add_actor-IsRegistry idle child_name usr_address 13 started added.1 added.0 started-IsRegistry
      started_next added_run

get_actor-add_actor_example :
    (added.0.id ≡ started.next_actor_id)
    × (get_actor added.0 added.1 ≡ some 13)
    × (get_actor_by_name added.0.pathname added.1 ≡ some 13)
    × (get_address added.0.pathname added.1 ≡ added.0)
    × ((b : BoxPtr) × (lookup added.0.id added.1.mboxes ≡ some b)
        × ((added.1.boxes b).dqueue ≡ [])
        × ((j : IdT) → lookup j added.1.mboxes ≡ some b → j ≡ added.0.id))
    × ((old : Address) (o : ℕ) → get_actor old started ≡ some o → get_actor old added.1 ≡ some o)
get_actor-add_actor_example =
    get_actor-add_actor idle child_name usr_address 13 started added.1 added.0 started-IsRegistry
      started_next added_run

abbrev no_description : Description
no_description = record {
  actor = 0;
  address = no_address;
  usrcont = none;
  name = [];
  parent = no_id;
  children = [];
}

-- Between the critical sections.
unfoldable begun : Pending × Context ℕ
unfolding add_begin
begun =
    value_or
      (record { new_id = 0; description = no_description; parent_description = none }, started)
      (add_begin idle child_name usr_address 13 started)

begun_run : add_begin idle child_name usr_address 13 started ≡ ok begun
unfolding begun add_begin started start construct lookup insert adjust
begun_run = refl

begun-IsPending : IsRegistry begun.1 × IsPending begun.0 begun.1
begun-IsPending =
    add_begin-IsPending idle child_name usr_address 13 started begun.1 begun.0 started-IsRegistry
      started_next begun_run

unfoldable begun_stopped : Context ℕ
unfolding stop_actor
begun_stopped = value_or started (stop_actor idle (address_of_id 2) begun.1)

begun_stopped_run :
    stop_actor idle (address_of_id begun.0.description.parent) begun.1 ≡ ok begun_stopped
unfolding begun_stopped stop_actor begun add_begin started start construct lookup insert adjust
    erase
begun_stopped_run = refl

begun_parent : begun.0.description.parent ≢ no_id
unfolding begun add_begin started start construct lookup insert adjust
begun_parent e = absurd (ground arith)

register_orphan_example :
    (lookup begun.0.new_id (register begun.0 begun_stopped).actors ≡ some begun.0.description)
    × (lookup begun.0.description.parent (register begun.0 begun_stopped).actors ≡ none)
    × ¬ IsRegistry (register begun.0 begun_stopped)
register_orphan_example =
    register_orphan idle begun.0 begun.1 begun_stopped begun-IsPending.0 begun-IsPending.1
      begun_parent begun_stopped_run

stop_actor-Under_example :
    (t : Context ℕ) × (stop_actor idle usr_address started ≡ ok t)
    × ((j : IdT) → Under started 2 j → (lookup j t.actors ≡ none) × (lookup j t.mboxes ≡ none))
    × ((j : IdT)
        → ¬ Under started 2 j
        → (lookup j t.actors ≡ lookup j started.actors)
          × (lookup j t.mboxes ≡ lookup j started.mboxes))
stop_actor-Under_example = stop_actor-Under idle usr_address started started-IsRegistry

unfoldable usr_stopped : Context ℕ
unfolding stop_actor
usr_stopped = value_or started (stop_actor idle usr_address started)

usr_stopped_run : stop_actor idle usr_address started ≡ ok usr_stopped
unfolding usr_stopped stop_actor started start construct lookup insert adjust erase
usr_stopped_run = refl

stop_actor-IsRegistry_example : IsRegistry usr_stopped
stop_actor-IsRegistry_example =
    stop_actor-IsRegistry idle usr_address started usr_stopped started-IsRegistry usr_stopped_run

usr_impl_run : stop_actor_impl idle 5 (address_of_id 2) manual started ≡ ok usr_stopped
unfolding usr_stopped stop_actor stop_actor_impl started start construct lookup insert adjust erase
usr_impl_run = refl

started_small : started.next_actor_id < 5 + 2
unfolding started start construct lookup insert adjust
started_small = omega arith

stop_actor_impl-StopEffect_example : StopEffect started 2 usr_stopped
stop_actor_impl-StopEffect_example =
    stop_actor_impl-StopEffect idle manual 5 (address_of_id 2) started usr_stopped usr_impl_run

stop_actor_impl-total_example :
    (t : Context ℕ) × (stop_actor_impl idle 5 (address_of_id 2) manual started ≡ ok t)
stop_actor_impl-total_example =
    stop_actor_impl-total idle manual 5 (address_of_id 2) started started-IsRegistry.ranked
      started_small (omega arith)

-- "usr" fails, and the decision is REINIT.
abbrev usr_description : Description
usr_description = record {
  actor = 11;
  address = address_of_id 2;
  usrcont = none;
  name = [];
  parent = 1;
  children = [];
}

unfoldable usr_failed : Context ℕ
unfolding on_actor_error
usr_failed = value_or started (on_actor_error idle reinit usr_description 10 started)

usr_failed_run : on_actor_error idle reinit usr_description 10 started ≡ ok usr_failed
unfolding usr_failed on_actor_error stop_actor_impl_safety run_method started start construct lookup
    insert adjust erase
usr_failed_run = refl

on_actor_error_lem_example : Decided idle reinit usr_description 10 started usr_failed
on_actor_error_lem_example =
    on_actor_error_lem idle reinit usr_description 10 started usr_failed (λ events. refl)
      usr_failed_run
