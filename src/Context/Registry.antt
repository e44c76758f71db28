-- ===== src/Context/Registry.antt =====
-- libyaaf/context.h: the well-formedness of a context's maps, and that the operations keep it.
pub mod Stopping
pub mod Same
pub mod Adding
pub mod Registering
pub mod NewActor
pub mod Found
pub mod Race
use yaaf.Common.{
  ℕ, ◌≤◌, ◌<◌, ◌≡◌, ◌≢◌, ◌⊎◌, true, Option, none, some, Str, nat_eq, str_eq, lookup, contains,
}
use yaaf.Address.{IdT, no_id}
use yaaf.Context.State.{Context, Description, ExchangeT, BoxPtr}
use yaaf.Context.Stop.Total.{IsRanked}

module _ {H : Type 0} where
  -- The actor `i` has no parent, or is in the children of one that is registered.
  abbrev pub HasFamily : Context H → IdT → Description → Type 0
  HasFamily s i d =
      (d.parent ≡ no_id)
      ⊎ ((p : Description) × (lookup d.parent s.actors ≡ some p) × (contains i p.children ≡ true))

  pub record IsRegistry (s : Context H) : Type 0 where
    -- Ids are below `_next_actor_id`, and grow from parent to child.
    pub ranked : IsRanked s
    pub started : 0 < s.next_actor_id
    pub positive : (i : IdT) (d : Description) → lookup i s.actors ≡ some d → 0 < i
    -- Exactly the registered actors have a mailbox.
    pub mailed : (i : IdT) → lookup i s.actors ≡ none → lookup i s.mboxes ≡ none
    pub housed : (i : IdT) → lookup i s.mboxes ≡ none → lookup i s.actors ≡ none
    pub addressed :
        (i : IdT) (d : Description)
        → lookup i s.actors ≡ some d
        → (d.address.id ≡ i) × (d.address.pathname ≡ d.name)
    pub family : (i : IdT) (d : Description) → lookup i s.actors ≡ some d → HasFamily s i d
    -- A name leads to the id that was last registered under it.
    pub named :
        (n : Str) (i : IdT)
        → lookup n s.id_by_name ≡ some i
        → (i < s.next_actor_id) × ((d : Description) → lookup i s.actors ≡ some d → d.name ≡ n)
    -- No two owners share a mailbox.
    pub box_bound : (i : IdT) (b : BoxPtr) → lookup i s.mboxes ≡ some b → b < s.next_box
    pub pub_bound :
        (n : Str) (x : ExchangeT) → lookup n s.exchanges ≡ some x → x.pub_box < s.next_box
    pub box_own :
        (i j : IdT) (b : BoxPtr) → lookup i s.mboxes ≡ some b → lookup j s.mboxes ≡ some b → i ≡ j
    pub pub_own :
        (m n : Str) (x y : ExchangeT)
        → lookup m s.exchanges ≡ some x
        → lookup n s.exchanges ≡ some y
        → x.pub_box ≡ y.pub_box
        → m ≡ n
    pub apart :
        (i : IdT) (b : BoxPtr) (n : Str) (x : ExchangeT)
        → lookup i s.mboxes ≡ some b
        → lookup n s.exchanges ≡ some x
        → b ≢ x.pub_box
