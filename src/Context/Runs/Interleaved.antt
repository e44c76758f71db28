-- ===== src/Context/Runs/Interleaved.antt =====
-- libyaaf/context.cpp: `add_actor` gives up its lock between its two critical sections. Here several
-- threads are within it at once, and whole operations come in between.
pub mod Parked
pub mod Safe
use yaaf.Common.{ℕ, ◌≡◌, ◌⊎◌, List, [], ◌∷◌, ◌++◌, Str, none, some, lookup, nat_eq}
use yaaf.Common.Outcomes.{ok}
use yaaf.Address.{Address}
use yaaf.Context.State.{Context, Description, Program, ActorPtr}
use yaaf.Context.Add.{Pending, add_begin, add_commit}
use yaaf.Context.Lifecycle.{construct, start}
use yaaf.Context.Runs.{Step}

-- The parent is the null id, or is registered.
abbrev pub HasParent : {H : Type 0} → Pending → Context H → Type 0
HasParent p s =
    (p.parent_description ≡ none)
    ⊎ ((pd : Description) × (lookup p.description.parent s.actors ≡ some pd))

-- A context that is reached, with what the threads within `add_actor` hold.
pub data ReachWithin {H : Type 0} (program : Program H) : List Pending → Context H → Type 0 where
  begun :
      (self_id : ℕ) (name : Str) (root usr sys : ActorPtr) {s : Context H}
      → start program root usr sys (construct self_id name) ≡ ok s
      → ReachWithin program [] s
  -- A whole operation of another thread.
  whole :
      {ps : List Pending} {s t : Context H}
      → ReachWithin program ps s
      → Step program s t
      → ReachWithin program ps t
  -- A thread calls `add_actor` and gives up the lock.
  begins :
      (n : Str) (parent : Address) (a : ActorPtr) {ps : List Pending} {p : Pending}
      {s t : Context H}
      → ReachWithin program ps s
      → add_begin program n parent a s ≡ ok (p, t)
      → ReachWithin program (p ∷ ps) t
  -- Any of these threads takes the lock again, and its parent has not been stopped.
  commits :
      (before after : List Pending) (p : Pending) (addr : Address) {s t : Context H}
      → ReachWithin program (before ++ p ∷ after) s
      → HasParent p s
      → add_commit p s ≡ ok (addr, t)
      → ReachWithin program (before ++ after) t
