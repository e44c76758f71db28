-- ===== src/Async/Locker/Exclusion.antt =====
-- libyaaf/utils/async/locker.h: mutual exclusion.
use yaaf.Common.{
  ℕ, zero, suc, ◌+◌, ◌<◌, ◌≡◌, ap, subst, Bool, true, false, ltb, if◌then◌else◌, List, [], ◌∷◌,
  ◌++◌, All, arith, Bool-cases, inl, inr,
}
use yaaf.Async.Locker.{
  LockThread, outside, trying, holding, LockState, next_try, try_once, new_locker, stepped,
  LockStep, calls, tries, unlocks, LockRuns, created, later,
}

abbrev holds : LockThread → ℕ
holds outside = 0
holds (trying in_lock num_try) = 0
holds holding = 1

-- How many threads have the lock.
unfoldable pub holders : List LockThread → ℕ
holders [] = 0
holders (th ∷ ths) = holds th + holders ths

holders-append :
    (xs ys : List LockThread) (th : LockThread)
    → holders (xs ++ th ∷ ys) ≡ holders xs + holds th + holders ys
unfolding holders
holders-append [] ys th = omega arith
holders-append (x ∷ xs) ys th = omega (arith, holders-append xs ys th)

-- A thread in `try_lock` has tries left.
abbrev pub HasTries : LockThread → Type 0
HasTries outside = Unit
HasTries (trying in_lock num_try) = num_try < 10
HasTries holding = Unit

All-replace :
    (xs ys : List LockThread) (th th' : LockThread)
    → All HasTries (xs ++ th ∷ ys)
    → HasTries th'
    → All HasTries (xs ++ th' ∷ ys)
All-replace [] ys th th' (old, h) new = (new, h)
All-replace (x ∷ xs) ys th th' (first, h) new = (first, All-replace xs ys th th' h new)

next_try-HasTries : (in_lock : Bool) (n : ℕ) → HasTries (next_try in_lock n)
unfolding next_try
next_try-HasTries in_lock n = elim (Bool-cases (ltb n 10)) [
  | inl more ↦ rw more (ground arith)
  | inr done ↦ rw done (elim in_lock as (λ b. HasTries (if b then trying b 0 else outside)) [
    | false ↦ tt
    | true ↦ omega arith
  ])
]

holds-next_try : (in_lock : Bool) (n : ℕ) → holds (next_try in_lock n) ≡ 0
unfolding next_try
holds-next_try in_lock n = ground arith

pub record IsExcluded (s : LockState) : Type 0 where
  pub one : holders s.lock_threads ≡ (if s.locked then 1 else 0)
  pub bounded : All HasTries s.lock_threads

stepped-IsExcluded :
    (s : LockState) (xs ys : List LockThread) (th th' : LockThread) (locked : Bool)
    → s.lock_threads ≡ xs ++ th ∷ ys
    → holds th' + (if s.locked then 1 else 0) ≡ holds th + (if locked then 1 else 0)
    → HasTries th'
    → IsExcluded s
    → IsExcluded (stepped xs ys (th', locked))
stepped-IsExcluded s xs ys th th' locked here balance left v = record {
  one =
      omega
        (arith, v.one, ap holders here, holders-append xs ys th, holders-append xs ys th', balance);
  bounded = All-replace xs ys th th' (subst (All HasTries) here v.bounded) left;
}

try_once-balance :
    (in_lock : Bool) (n : ℕ) (locked : Bool)
    → holds (try_once in_lock n locked).0 + (if locked then 1 else 0)
      ≡ (if (try_once in_lock n locked).1 then 1 else 0)
unfolding try_once
try_once-balance in_lock n false = omega arith
try_once-balance in_lock n true = omega (arith, holds-next_try in_lock (n + 1))

try_once-HasTries :
    (in_lock : Bool) (n : ℕ) (locked : Bool) → HasTries (try_once in_lock n locked).0
unfolding try_once
try_once-HasTries in_lock n false = tt
try_once-HasTries in_lock n true = next_try-HasTries in_lock (n + 1)

step-IsExcluded : (s t : LockState) → LockStep s t → IsExcluded s → IsExcluded t
step-IsExcluded s t (calls xs ys in_lock here) v =
    stepped-IsExcluded s xs ys outside (next_try in_lock 0) s.locked here
      (omega (arith, holds-next_try in_lock 0)) (next_try-HasTries in_lock 0) v
step-IsExcluded s t (tries xs ys in_lock n here) v =
    let (th, locked) = try_once in_lock n s.locked in
    stepped-IsExcluded s xs ys (trying in_lock n) th locked here
      (omega (arith, try_once-balance in_lock n s.locked)) (try_once-HasTries in_lock n s.locked) v
step-IsExcluded s t (unlocks xs ys here) v =
    stepped-IsExcluded s xs ys holding outside false here
      (ground (arith, v.one, ap holders here, holders-append xs ys holding)) tt v

new_locker-IsExcluded : (n : ℕ) → IsExcluded (new_locker n)
unfolding holders
new_locker-IsExcluded zero = record { one = omega arith; bounded = tt }
new_locker-IsExcluded (suc n) =
    let v = new_locker-IsExcluded n in
    record { one = omega (arith, v.one); bounded = (tt, v.bounded) }

-- In every run of threads that unlock only what they have locked, one thread has the lock when the flag
-- is set and none when it is clear, and no call of `try_lock` makes more than ten tries.
pub LockRuns-IsExcluded : (n : ℕ) (s : LockState) → LockRuns n s → IsExcluded s
LockRuns-IsExcluded n s created = new_locker-IsExcluded n
LockRuns-IsExcluded n t (later {s} r step) = step-IsExcluded s t step (LockRuns-IsExcluded n s r)
