-- ===== src/Async/Locker.antt =====
-- libyaaf/utils/async/locker.h: the spin lock, with the threads that use it. The steps are the atomic
-- operations on the flag; between two of them any other thread may act.
pub mod Exclusion
use yaaf.Common.{
  ℕ, zero, suc, ◌+◌, ◌≡◌, Bool, true, false, not, ltb, if◌then◌else◌, List, [], ◌∷◌, ◌++◌,
}

-- `LOCKER_MAX_TRY`.
abbrev pub locker_max_try : ℕ
locker_max_try = 10

-- A thread outside; one in `try_lock`, at this `num_try`, called from `lock` or by itself; and one that
-- has the lock.
pub data LockThread : Type 0 where
  outside : LockThread
  trying : Bool → ℕ → LockThread
  holding : LockThread

-- `locked`, and the threads.
pub record LockState : Type 0 where
  pub locked : Bool
  pub lock_threads : List LockThread

-- `atomic_flag::test_and_set`: the old value, and the new one.
abbrev pub test_and_set : Bool → Bool × Bool
test_and_set locked = (locked, true)

-- The head of the `for` loop. When it is left, `lock` yields and calls `try_lock` again.
unfoldable pub next_try : Bool → ℕ → LockThread
next_try in_lock num_try =
    if ltb num_try locker_max_try
    then trying in_lock num_try
    else (if in_lock then trying in_lock 0 else outside)

-- The body of the loop.
unfoldable pub try_once : Bool → ℕ → Bool → LockThread × Bool
unfolding next_try
try_once in_lock num_try locked =
    let (was, now) = test_and_set locked in
    if not was then (holding, now) else (next_try in_lock (num_try + 1), now)

abbrev free_threads : ℕ → List LockThread
free_threads zero = []
free_threads (suc n) = outside ∷ free_threads n

-- A new lock, and threads that do not use it yet.
abbrev pub new_locker : ℕ → LockState
new_locker n = record { locked = false; lock_threads = free_threads n }

-- Write back what a thread and the flag have become.
abbrev pub stepped : List LockThread → List LockThread → LockThread × Bool → LockState
stepped before after (th, locked) = record { locked = locked; lock_threads = before ++ th ∷ after }

-- A thread calls `try_lock` or `lock`, makes one round of the loop, or calls `unlock` when it has the
-- lock, as a `lock_guard` does.
pub data LockStep (s : LockState) : LockState → Type 0 where
  calls :
      (before after : List LockThread) (in_lock : Bool)
      → s.lock_threads ≡ before ++ outside ∷ after
      → LockStep s (stepped before after (next_try in_lock 0, s.locked))
  tries :
      (before after : List LockThread) (in_lock : Bool) (num_try : ℕ)
      → s.lock_threads ≡ before ++ trying in_lock num_try ∷ after
      → LockStep s (stepped before after (try_once in_lock num_try s.locked))
  unlocks :
      (before after : List LockThread)
      → s.lock_threads ≡ before ++ holding ∷ after
      → LockStep s (stepped before after (outside, false))

pub data LockRuns (n : ℕ) : LockState → Type 0 where
  created : LockRuns n (new_locker n)
  later : {s t : LockState} → LockRuns n s → LockStep s t → LockRuns n t
