-- ===== src/Tests/Within.antt =====
-- Threads within `add_actor`, and an actor that is stopped and made anew.
use yaaf.Common.{
  false, nat_eq, none, ℕ, ◌≡◌, refl, some, [], ◌∷◌, lookup, insert, adjust, erase, arith, inr, Str,
  Str,
}
use yaaf.Common.Outcomes.{ok, null_deref}
use yaaf.Address.{address_empty, Address, no_address}
use yaaf.Context.State.{Context, Description}
use yaaf.Context.Add.{Pending, add_begin, add_commit, add_actor}
use yaaf.Context.Stop.{stop_actor}
use yaaf.Context.Stop.Effect.{here}
use yaaf.Context.Lifecycle.{construct, start}
use yaaf.Context.Sound.{HasRoom}
use yaaf.Context.Runs.{Later, adds, began, later, at_once, further}
use yaaf.Context.Runs.Gone.{add_actor-stop_actor}
use yaaf.Context.Runs.Interleaved.{ReachWithin, begun, begins, commits}
use yaaf.Context.Runs.Interleaved.Safe.{IsSafe, ReachWithin-IsSafe}
use yaaf.Tests.Data.{
  value_or, idle, started, started_run, child_name, usr_address, added, added_run,
}

abbrev no_pending : Pending
no_pending = record {
  new_id = 0;
  description = record {
    actor = 0;
    address = no_address;
    usrcont = none;
    name = [];
    parent = 0;
    children = [];
  };
  parent_description = none;
}

abbrev second_name : Str
second_name = b'b' ∷ []

-- One thread is within `add_actor` for "a", then another one for "b".
unfoldable first : Pending × Context ℕ
unfolding add_begin
first = value_or (no_pending, started) (add_begin idle child_name usr_address 13 started)

unfoldable second : Pending × Context ℕ
unfolding add_begin
second = value_or (no_pending, started) (add_begin idle second_name usr_address 14 first.1)

-- The first of them goes on.
unfoldable third : Address × Context ℕ
unfolding add_commit
third = value_or (no_address, started) (add_commit first.0 second.1)

first_run : add_begin idle child_name usr_address 13 started ≡ ok first
unfolding first add_begin started start construct lookup insert adjust
first_run = refl

second_run : add_begin idle second_name usr_address 14 first.1 ≡ ok second
unfolding second first add_begin started start construct lookup insert adjust
second_run = refl

third_run : add_commit first.0 second.1 ≡ ok third
unfolding third second first add_begin add_commit started start construct lookup insert adjust
third_run = refl

usr_entry : (d : Description) × (lookup first.0.description.parent second.1.actors ≡ some d)
unfolding second first add_begin started start construct lookup insert adjust
usr_entry = (_, refl)

first-Within : ReachWithin idle (second.0 ∷ first.0 ∷ []) second.1
first-Within =
    begins second_name usr_address 14
      (begins child_name usr_address 13 (begun 7 [] 10 11 12 started_run) first_run) second_run

third-Within : ReachWithin idle (second.0 ∷ []) third.1
third-Within = commits (second.0 ∷ []) [] first.0 third.0 first-Within (inr usr_entry) third_run

third-HasRoom : HasRoom third.1
unfolding third second first add_begin add_commit started start construct lookup insert adjust
third-HasRoom = omega arith

ReachWithin-IsSafe_example : IsSafe (second.0 ∷ []) third.1
ReachWithin-IsSafe_example =
    ReachWithin-IsSafe idle (second.0 ∷ []) third.1 third-Within third-HasRoom

-- The actor "a" is stopped, and another one is made under its name.
unfoldable stopped : Context ℕ
unfolding stop_actor
stopped = value_or added.1 (stop_actor idle added.0 added.1)

unfoldable renewed : Address × Context ℕ
unfolding add_actor
renewed = value_or (no_address, stopped) (add_actor idle child_name usr_address 15 stopped)

stopped_run : stop_actor idle added.0 added.1 ≡ ok stopped
unfolding stopped stop_actor added add_actor started start construct lookup insert adjust erase
stopped_run = refl

renewed_run : add_actor idle child_name usr_address 15 stopped ≡ ok renewed
unfolding renewed stopped stop_actor added add_actor started start construct lookup insert adjust
    erase
renewed_run = refl

added_entry : (d : Description) × (lookup added.0.id added.1.actors ≡ some d)
unfolding added add_actor started start construct lookup insert adjust
added_entry = (_, refl)

renewed-HasRoom : HasRoom renewed.1
unfolding renewed stopped stop_actor added add_actor started start construct lookup insert adjust
    erase
renewed-HasRoom = omega arith

renewed-Later : Later idle stopped renewed.1
renewed-Later = further at_once (adds child_name usr_address 15 renewed.0 renewed_run)

added_given : address_empty added.0 ≡ false
unfolding address_empty added add_actor started start construct lookup insert adjust
added_given = refl

add_actor-stop_actor_example : add_actor idle second_name added.0 16 renewed.1 ≡ null_deref
add_actor-stop_actor_example =
    add_actor-stop_actor idle added.0 added.0 added_entry.0 second_name 16 added.1 stopped renewed.1
      added_given
      (later (began 7 [] 10 11 12 started_run) (adds child_name usr_address 13 added.0 added_run))
      added_entry.1 (here refl) stopped_run renewed-Later renewed-HasRoom
