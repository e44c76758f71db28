-- ===== src/Tests/Locker.antt =====
-- Two threads at a spin lock: one has it, and the other has tried once.
use yaaf.Common.{refl, true, false, [], ◌∷◌}
use yaaf.Async.Locker.{
  LockState, outside, trying, holding, next_try, try_once, stepped, calls, tries, LockRuns, created,
  later,
}
use yaaf.Async.Locker.Exclusion.{IsExcluded, LockRuns-IsExcluded}

unfoldable contended : LockState
unfolding try_once
contended = stepped (holding ∷ []) [] (try_once false 0 true)

contended-LockRuns : LockRuns 2 contended
unfolding contended next_try try_once
contended-LockRuns =
    later
      (later
        (later (later created (calls [] (outside ∷ []) true refl))
          (calls (trying true 0 ∷ []) [] false refl))
        (tries [] (trying false 0 ∷ []) true 0 refl))
      (tries (holding ∷ []) [] false 0 refl)

LockRuns-IsExcluded_example : IsExcluded contended
LockRuns-IsExcluded_example = LockRuns-IsExcluded 2 contended contended-LockRuns
