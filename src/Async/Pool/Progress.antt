-- ===== src/Async/Pool/Progress.antt =====
-- libyaaf/utils/async/thread_pool.cpp: how many tasks a pool has, and that a thread works them off.
use yaaf.Common.{
  ℕ, zero, suc, ◌+◌, ◌≤◌, ◌≡◌, refl, ap, sym, subst, inl, inr, false, Bool-cases, Option-cases,
  none, some, List, [], ◌∷◌, ◌++◌, nat_eq, nat_beq_iff, arith, length, length-append, ◌<◌,
}
use yaaf.Async.Pool.{
  TaskPriority, ContinuationStrategy, single, repeat, TaskPtr, Thread, waiting, running, repeating,
  putting, leaving, returned, look_again, put_back, lower_runned, ThreadsPool, new_pool, push_task,
  post, begin_stop, end_stop, choose, erase_found, active_workers, take_task, after_apply,
  pool_logic, waiting_threads,
}
use yaaf.Async.Pool.Choice.{first_default, choose_lem}
use yaaf.Async.Pool.Runs.{Runs, created, posted, pushed, worked, stops, joined}
use yaaf.Async.Pool.Conservation.{
  occurs, hands, hand, busy, occurs-erase_found, choose-occurs, occurs-empty, pool-IsBalanced,
}

length-erase_found :
    (v : TaskPtr) (q : List TaskPtr) → 0 < occurs v q → length q ≡ suc (length (erase_found v q))
unfolding erase_found
length-erase_found v [] h = ground arith
length-erase_found v (u ∷ q) h = ground (arith, nat_beq_iff u v, length-erase_found v q)

-- The threads that have no task any more, and have not lowered the counter.
abbrev pub leavers : List Thread → ℕ
leavers [] = 0
leavers (waiting ∷ ths) = leavers ths
leavers (running t ∷ ths) = leavers ths
leavers (repeating t ∷ ths) = leavers ths
leavers (putting t ∷ ths) = leavers ths
leavers (leaving ∷ ths) = suc (leavers ths)
leavers (returned ∷ ths) = leavers ths

busy-hands : (ths : List Thread) → busy ths ≡ length (hands ths) + leavers ths
busy-hands [] = refl
busy-hands (waiting ∷ ths) = omega (arith, busy-hands ths)
busy-hands (running t ∷ ths) = omega (arith, busy-hands ths)
busy-hands (repeating t ∷ ths) = omega (arith, busy-hands ths)
busy-hands (putting t ∷ ths) = omega (arith, busy-hands ths)
busy-hands (leaving ∷ ths) = omega (arith, busy-hands ths)
busy-hands (returned ∷ ths) = omega (arith, busy-hands ths)

length-busy : (ths : List Thread) → busy ths ≤ length ths
length-busy [] = omega arith
length-busy (waiting ∷ ths) = omega (arith, length-busy ths)
length-busy (running t ∷ ths) = omega (arith, length-busy ths)
length-busy (repeating t ∷ ths) = omega (arith, length-busy ths)
length-busy (putting t ∷ ths) = omega (arith, length-busy ths)
length-busy (leaving ∷ ths) = omega (arith, length-busy ths)
length-busy (returned ∷ ths) = omega (arith, length-busy ths)

length-hands-append :
    (xs ys : List Thread) (th : Thread)
    → length (hands (xs ++ th ∷ ys)) ≡ length (hands xs) + length (hand th) + length (hands ys)
length-hands-append [] ys th = omega (arith, length-append (hand th) (hands ys))
length-hands-append (x ∷ xs) ys th = omega (
  arith,
  length-append (hand x) (hands (xs ++ th ∷ ys)),
  length-append (hand x) (hands xs),
  length-hands-append xs ys th,
)

module _ (priority : TaskPtr → TaskPriority) where
  -- The tasks of a thread and of the pool beside it.
  abbrev amount : ThreadsPool → Thread → ℕ
  amount p th = length p.in_queue + length (hand th) + length p.unlocked

  amount-pool_logic :
      (th : Thread) (answer : ContinuationStrategy) (p : ThreadsPool)
      → amount (pool_logic priority th answer p).0 (pool_logic priority th answer p).1 ≡ amount p th
  unfolding pool_logic take_task after_apply look_again put_back lower_runned push_task
  amount-pool_logic waiting answer p = elim (Bool-cases p.stop_flag) [
    | inl s ↦ ground arith
    | inr s ↦ elim (Option-cases (choose priority none p.in_queue)) [
      | inl e ↦ ground arith
      | inr (v, e) ↦
          ground (arith, length-erase_found v p.in_queue (choose-occurs priority v p.in_queue e))
    ]
  ]
  amount-pool_logic (running v) single p = ground arith
  amount-pool_logic (running v) repeat p = refl
  amount-pool_logic (repeating v) answer p = ground arith
  amount-pool_logic (putting v) answer p = ground (arith, length-append p.in_queue (v ∷ []))
  amount-pool_logic leaving answer p = refl
  amount-pool_logic returned answer p = refl

  length-hands-new : (n : ℕ) → length (hands (new_pool n).threads) ≡ 0
  unfolding new_pool waiting_threads
  length-hands-new zero = refl
  length-hands-new (suc n) = length-hands-new n

  accounted :
      (ts : List TaskPtr) (p : ThreadsPool)
      → Runs priority ts p
      → length p.in_queue + length (hands p.threads) + length p.unlocked ≡ length ts
  unfolding new_pool post push_task begin_stop end_stop
  accounted ts p (created n) = omega (arith, length-hands-new n)
  accounted _ _ (posted {ts} {p} t o r) =
      ground (arith, accounted ts p r, length-append p.in_queue (t ∷ []))
  accounted _ _ (pushed {ts} {p} t r) =
      omega (arith, accounted ts p r, length-append p.in_queue (t ∷ []))
  accounted _ _ (worked {ts} {p} xs ys th answer e r) =
      let th' = (pool_logic priority th answer p).1 in
      omega (
        arith,
        accounted ts p r,
        ap (λ ths. length (hands ths)) e,
        length-hands-append xs ys th,
        length-hands-append xs ys th',
        amount-pool_logic th answer p,
      )
  accounted _ _ (stops {ts} {p} r) = accounted ts p r
  accounted _ _ (joined {ts} {p} r) = accounted ts p r

  -- In every run of a pool `active_workers` and the finished tasks are together as many as the tasks
  -- that the pool accepted, and more by the threads that have finished a task, or put it back, and have
  -- not yet lowered the counter; and the counter is at most the number of threads.
  pub active_workers-Runs :
      (ts : List TaskPtr) (p : ThreadsPool)
      → Runs priority ts p
      → (active_workers p + length p.unlocked ≡ length ts + leavers p.threads)
        × (p.task_runned ≤ length p.threads)
  unfolding active_workers
  active_workers-Runs ts p r =
      let runned = (pool-IsBalanced priority ts p r).1 in
      (
        omega (arith, accounted ts p r, runned, busy-hands p.threads),
        omega (arith, runned, length-busy p.threads),
      )

  -- One step of a thread whose tasks all answer SINGLE.
  abbrev pub step : ThreadsPool × Thread → ThreadsPool × Thread
  step (p, th) = pool_logic priority th single p

  -- Three times `n` steps of it.
  unfoldable pub work : ℕ → ThreadsPool × Thread → ThreadsPool × Thread
  unfolding pool_logic
  work zero r = r
  work (suc n) r = work n (step (step (step r)))

  choose-found :
      (q : List TaskPtr) → 0 < length q → (t : TaskPtr) × (choose priority none q ≡ some t)
  choose-found [] full = absurd (omega arith)
  choose-found (v ∷ q) full = elim (Option-cases (first_default priority (v ∷ q))) [
    | inl none_default ↦ (v, ground (arith, choose_lem priority (v ∷ q), none_default))
    | inr (t, there) ↦ (t, ground (arith, choose_lem priority (v ∷ q), there))
  ]

  -- A thread with a task waiting: three steps later the task is finished.
  abbrev after_one : TaskPtr → ThreadsPool → ThreadsPool
  after_one t p = record p { in_queue = erase_found t p.in_queue; unlocked = t ∷ p.unlocked }

  three_steps :
      (t : TaskPtr) (p : ThreadsPool)
      → p.stop_flag ≡ false
      → choose priority none p.in_queue ≡ some t
      → step (step (step (p, waiting))) ≡ (after_one t p, waiting)
  unfolding pool_logic take_task after_apply lower_runned
  three_steps t p go found = ground (arith, go, found)

  -- What is left after some work.
  pub record Finished (p : ThreadsPool) (r : ThreadsPool × Thread) : Type 0 where
    pub empty : r.0.in_queue ≡ []
    pub waits : r.1 ≡ waiting
    pub runned : r.0.task_runned ≡ p.task_runned
    pub unlocked : (t : TaskPtr) → occurs t r.0.unlocked ≡ occurs t p.unlocked + occurs t p.in_queue

  -- While a pool does not stop, one thread whose tasks all answer SINGLE finishes `n` waiting tasks in
  -- three times `n` steps, each as often as it was queued. The queue is empty then, the thread waits again,
  -- and the counter of running tasks is as before.
  pub work-Finished :
      (n : ℕ) (p : ThreadsPool)
      → p.stop_flag ≡ false
      → length p.in_queue ≡ n
      → Finished p (work n (p, waiting))
  unfolding work
  work-Finished zero p go len = record {
    empty = ground arith;
    waits = refl;
    runned = refl;
    unlocked = λ t. omega (arith, occurs-empty t p.in_queue len);
  }
  work-Finished (suc n) p go len =
      let (t, found) = choose-found p.in_queue (omega (arith, len)) in
      let there = choose-occurs priority t p.in_queue found in
      let rest =
        work-Finished n (after_one t p) go
          (omega (arith, len, length-erase_found t p.in_queue there)) in
      subst (λ r. Finished p (work n r)) (sym (three_steps t p go found))
        (record {
          empty = rest.empty;
          waits = rest.waits;
          runned = rest.runned;
          unlocked = λ u. ground (arith, rest.unlocked u, occurs-erase_found u t p.in_queue there);
        })
