-- ===== src/Async/Pool/Choice.antt =====
-- libyaaf/utils/async/thread_pool.cpp: which task a thread takes from the queue.
use yaaf.Common.{
  ◌≡◌, refl, true, not, if◌then◌else◌, ltb, nat_beq, Option, none, some, List, [], ◌∷◌, arith,
}
use yaaf.Async.Pool.{TaskPriority, default, worker, priority_value, TaskPtr, is_worker, choose}

-- Below a worker task stand the tasks that are not.
ltb-priority_value :
    (u v : TaskPriority)
    → nat_beq (priority_value u) 255 ≡ true
    → ltb (priority_value v) (priority_value u) ≡ not (nat_beq (priority_value v) 255)
unfolding priority_value
ltb-priority_value u default h = ground arith
ltb-priority_value u worker h = ground arith

abbrev pub or_else : Option TaskPtr → Option TaskPtr → Option TaskPtr
or_else (some t) o = some t
or_else none o = o

abbrev pub first : List TaskPtr → Option TaskPtr
first [] = none
first (v ∷ q) = some v

module _ (priority : TaskPtr → TaskPriority) where
  -- The first task of the default priority.
  abbrev pub first_default : List TaskPtr → Option TaskPtr
  first_default [] = none
  first_default (v ∷ q) = if is_worker priority v then first_default q else some v

  choose-some :
      (t : TaskPtr) (q : List TaskPtr)
      → is_worker priority t ≡ true
      → choose priority (some t) q ≡ or_else (first_default q) (some t)
  unfolding choose
  choose-some t [] h = refl
  choose-some t (v ∷ q) h =
      ground (arith, ltb-priority_value (priority t) (priority v) h, choose-some t q h)

  -- A thread of a pool takes the first task of the default priority, whatever worker tasks stand
  -- before it, and with worker tasks alone the first of them; it takes none only from an empty
  -- queue.
  pub choose_lem : (q : List TaskPtr) → choose priority none q ≡ or_else (first_default q) (first q)
  unfolding choose
  choose_lem [] = refl
  choose_lem (v ∷ q) = ground (arith, choose-some v q)
