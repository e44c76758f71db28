-- ===== src/Async/Pool/Conservation.antt =====
-- libyaaf/utils/async/thread_pool.cpp: no task is lost and none is run twice at a time.
use yaaf.Common.{
  ℕ, suc, ◌+◌, ◌≡◌, refl, ap, sym, inl, inr, true, false, Bool-cases, Option-cases, if◌then◌else◌,
  none, some, List, [], ◌∷◌, ◌++◌, ◌==◌, nat_eq, nat_beq_iff, all, arith, length, ◌<◌,
}
use yaaf.Async.Pool.{
  TaskPriority, ContinuationStrategy, single, repeat, TaskPtr, Thread, waiting, running, repeating,
  putting, leaving, returned, look_again, put_back, lower_runned, ThreadsPool, new_pool, push_task,
  post, begin_stop, end_stop, is_worker, choose, erase_found, take_task, after_apply, pool_logic,
  is_flushed, waiting_threads,
}
use yaaf.Async.Pool.Runs.{Runs, created, posted, pushed, worked, stops, joined, stepped}

-- How often a task occurs in a list, and in the hands of threads.
abbrev pub occurs : TaskPtr → List TaskPtr → ℕ
occurs t [] = 0
occurs t (v ∷ q) = if v == t then suc (occurs t q) else occurs t q

abbrev pub hand : Thread → List TaskPtr
hand waiting = []
hand (running t) = t ∷ []
hand (repeating t) = t ∷ []
hand (putting t) = t ∷ []
hand leaving = []
hand returned = []

abbrev pub hands : List Thread → List TaskPtr
hands [] = []
hands (th ∷ ths) = hand th ++ hands ths

-- Whether a thread has raised `_task_runned` and not lowered it, and how many have.
abbrev pub busy_one : Thread → ℕ
busy_one waiting = 0
busy_one (running t) = 1
busy_one (repeating t) = 1
busy_one (putting t) = 1
busy_one leaving = 1
busy_one returned = 0

abbrev pub busy : List Thread → ℕ
busy [] = 0
busy (th ∷ ths) = busy_one th + busy ths

occurs-append : (t : TaskPtr) (q r : List TaskPtr) → occurs t (q ++ r) ≡ occurs t q + occurs t r
occurs-append t [] r = omega arith
occurs-append t (v ∷ q) r = ground (arith, occurs-append t q r)

pub hands-append :
    (t : TaskPtr) (xs ys : List Thread) (th : Thread)
    → occurs t (hands (xs ++ th ∷ ys))
      ≡ occurs t (hands xs) + occurs t (hand th) + occurs t (hands ys)
hands-append t [] ys th = omega (arith, occurs-append t (hand th) (hands ys))
hands-append t (x ∷ xs) ys th = omega (
  arith,
  occurs-append t (hand x) (hands (xs ++ th ∷ ys)),
  occurs-append t (hand x) (hands xs),
  hands-append t xs ys th,
)

pub busy-append :
    (xs ys : List Thread) (th : Thread) → busy (xs ++ th ∷ ys) ≡ busy xs + busy_one th + busy ys
busy-append [] ys th = omega arith
busy-append (x ∷ xs) ys th = omega (arith, busy-append xs ys th)

-- A thread that has a task is busy.
hand-busy_one : (t : TaskPtr) (th : Thread) → busy_one th ≡ 0 → occurs t (hand th) ≡ 0
hand-busy_one t waiting e = refl
hand-busy_one t (running v) e = absurd (omega (arith, e))
hand-busy_one t (repeating v) e = absurd (omega (arith, e))
hand-busy_one t (putting v) e = absurd (omega (arith, e))
hand-busy_one t leaving e = refl
hand-busy_one t returned e = refl

pub hands-busy : (t : TaskPtr) (ths : List Thread) → busy ths ≡ 0 → occurs t (hands ths) ≡ 0
hands-busy t [] e = refl
hands-busy t (th ∷ ths) e = omega (
  arith,
  occurs-append t (hand th) (hands ths),
  hand-busy_one t th (omega (arith, e)),
  hands-busy t ths (omega (arith, e)),
)

pub occurs-erase_found :
    (t v : TaskPtr) (q : List TaskPtr)
    → 0 < occurs v q
    → occurs t q ≡ occurs t (v ∷ erase_found v q)
unfolding erase_found
occurs-erase_found t v [] h = ground arith
occurs-erase_found t v (u ∷ q) h =
    ground (arith, nat_beq_iff u v, nat_beq_iff v t, nat_beq_iff u t, occurs-erase_found t v q)

pub occurs-empty : (t : TaskPtr) (q : List TaskPtr) → length q ≡ 0 → occurs t q ≡ 0
occurs-empty t [] h = refl
occurs-empty t (v ∷ q) h = ground arith

module _ (priority : TaskPtr → TaskPriority) where
  choose-some-occurs :
      (t v : TaskPtr) (q : List TaskPtr)
      → choose priority (some t) q ≡ some v
      → 0 < occurs v (t ∷ q)
  unfolding choose
  choose-some-occurs t v [] h = ground (arith, nat_beq_iff t v)
  choose-some-occurs t v (u ∷ q) h =
      ground (arith, nat_beq_iff u v, nat_beq_iff t v, choose-some-occurs t v q)

  pub choose-occurs :
      (v : TaskPtr) (q : List TaskPtr) → choose priority none q ≡ some v → 0 < occurs v q
  unfolding choose
  choose-occurs v [] h = ground arith
  choose-occurs v (u ∷ q) h = ground (arith, nat_beq_iff u v, choose-some-occurs u v q)

  -- How often a task occurs in the queue, in a thread's hand and among the finished ones.
  abbrev total : TaskPtr → ThreadsPool → Thread → ℕ
  total t p th = occurs t p.in_queue + occurs t (hand th) + occurs t p.unlocked

  total-pool_logic :
      (t : TaskPtr) (th : Thread) (answer : ContinuationStrategy) (p : ThreadsPool)
      → total t (pool_logic priority th answer p).0 (pool_logic priority th answer p).1
        ≡ total t p th
  unfolding pool_logic take_task after_apply look_again put_back lower_runned push_task
  total-pool_logic t waiting answer p = elim (Bool-cases p.stop_flag) [
    | inl s ↦ ground arith
    | inr s ↦ elim (Option-cases (choose priority none p.in_queue)) [
      | inl e ↦ ground arith
      | inr (v, e) ↦
          ground (arith, occurs-erase_found t v p.in_queue (choose-occurs v p.in_queue e))
    ]
  ]
  total-pool_logic t (running v) single p = ground arith
  total-pool_logic t (running v) repeat p = refl
  total-pool_logic t (repeating v) answer p = ground arith
  total-pool_logic t (putting v) answer p = ground (arith, occurs-append t p.in_queue (v ∷ []))
  total-pool_logic t leaving answer p = refl
  total-pool_logic t returned answer p = refl

  runned-pool_logic :
      (th : Thread) (answer : ContinuationStrategy) (p : ThreadsPool) (n : ℕ)
      → p.task_runned ≡ n + busy_one th
      → (pool_logic priority th answer p).0.task_runned
        ≡ n + busy_one (pool_logic priority th answer p).1
  unfolding pool_logic take_task after_apply look_again put_back lower_runned push_task
  runned-pool_logic waiting answer p n h = elim (Option-cases (choose priority none p.in_queue)) [
    | inl e ↦ ground arith
    | inr (v, e) ↦ ground arith
  ]
  runned-pool_logic (running v) single p n h = ground arith
  runned-pool_logic (running v) repeat p n h = ground arith
  runned-pool_logic (repeating v) answer p n h = ground arith
  runned-pool_logic (putting v) answer p n h = ground arith
  runned-pool_logic leaving answer p n h = omega (arith, h)
  runned-pool_logic returned answer p n h = h

  abbrev pub IsBalanced : List TaskPtr → ThreadsPool → Type 0
  IsBalanced ts p =
      ((t : TaskPtr)
        → occurs t ts ≡ occurs t p.in_queue + occurs t (hands p.threads) + occurs t p.unlocked)
      × (p.task_runned ≡ busy p.threads)

  threads-new : (n : ℕ) → (hands (new_pool n).threads ≡ []) × (busy (new_pool n).threads ≡ 0)
  unfolding new_pool waiting_threads
  threads-new ℕ.zero = (refl, refl)
  threads-new (suc n) = ((threads-new n).0, omega (arith, (threads-new n).1))

  created-IsBalanced : (n : ℕ) → IsBalanced [] (new_pool n)
  unfolding new_pool
  created-IsBalanced n =
      let (none_held, none_busy) = threads-new n in
      ((λ t. ground (arith, ap (occurs t) none_held)), sym none_busy)

  worked-IsBalanced :
      (ts : List TaskPtr) (p : ThreadsPool) (xs ys : List Thread) (th : Thread)
      (answer : ContinuationStrategy)
      → p.threads ≡ xs ++ th ∷ ys
      → IsBalanced ts p
      → IsBalanced ts (stepped xs ys (pool_logic priority th answer p))
  worked-IsBalanced ts p xs ys th answer e (h, r) =
      let th' = (pool_logic priority th answer p).1 in
      let runned =
        runned-pool_logic th answer p (busy xs + busy ys)
          (omega (arith, r, ap busy e, busy-append xs ys th)) in
      (
        (λ t. omega (
          arith,
          h t,
          ap (λ ths. occurs t (hands ths)) e,
          hands-append t xs ys th,
          hands-append t xs ys th',
          total-pool_logic t th answer p,
        )),
        omega (arith, runned, busy-append xs ys th'),
      )

  -- In every run, each task that the pool accepted is in the queue, in a thread's hands or finished, as
  -- often as it was accepted, and the counter of running tasks is the number of threads that have one or
  -- have not yet lowered it.
  pub pool-IsBalanced : (ts : List TaskPtr) (p : ThreadsPool) → Runs priority ts p → IsBalanced ts p
  unfolding post push_task begin_stop end_stop
  pool-IsBalanced ts p (created n) = created-IsBalanced n
  pool-IsBalanced _ _ (posted {ts} {p} t o r) =
      let (h, k) = pool-IsBalanced ts p r in
      ((λ u. ground (arith, h u, occurs-append u p.in_queue (t ∷ []))), ground arith)
  pool-IsBalanced _ _ (pushed {ts} {p} t r) =
      let (h, k) = pool-IsBalanced ts p r in
      ((λ u. ground (arith, h u, occurs-append u p.in_queue (t ∷ []))), k)
  pool-IsBalanced _ _ (worked {ts} {p} xs ys th answer e r) =
      worked-IsBalanced ts p xs ys th answer e (pool-IsBalanced ts p r)
  pool-IsBalanced _ _ (stops {ts} {p} r) = pool-IsBalanced ts p r
  pool-IsBalanced _ _ (joined {ts} {p} r) = pool-IsBalanced ts p r

  occurs-workers :
      (t : TaskPtr) (q : List TaskPtr)
      → is_worker priority t ≡ false
      → all (is_worker priority) q ≡ true
      → occurs t q ≡ 0
  occurs-workers t [] d w = refl
  occurs-workers t (v ∷ q) d w =
      ground (arith, nat_beq_iff v t, ap (is_worker priority), occurs-workers t q)

  -- When a pool is found flushed, each task of the default priority has been run to its end as often as the
  -- pool accepted it.
  pub is_flushed-finished :
      (ts : List TaskPtr) (p : ThreadsPool) (t : TaskPtr)
      → Runs priority ts p
      → is_flushed priority p ≡ true
      → is_worker priority t ≡ false
      → occurs t p.unlocked ≡ occurs t ts
  unfolding is_flushed
  is_flushed-finished ts p t r f d =
      let (h, k) = pool-IsBalanced ts p r in
      ground (arith, h t, k, occurs-workers t p.in_queue d, hands-busy t p.threads)
