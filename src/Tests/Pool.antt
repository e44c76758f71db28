-- ===== src/Tests/Pool.antt =====
-- A pool of one thread that runs one task to its end.
use yaaf.Common.{
  ℕ, ◌+◌, ◌≤◌, length, ◌≡◌, refl, true, false, none, some, [], ◌∷◌, lookup, insert, nat_eq, subst,
}
use yaaf.Async.Pool.{
  TaskPriority, default, worker, single, TaskPtr, ThreadsPool, waiting, running, leaving,
  lower_runned, new_pool, post, pool_logic, choose, is_worker, is_flushed, priority_value,
  push_task, take_task, after_apply, erase_found, active_workers,
}
use yaaf.Common.Outcomes.{ok}
use yaaf.Async.Manager.{Texts, ThreadManager, make_pools, post_kind}
use yaaf.Async.Manager.Runs.{with_pool, posts, works, made, moved}
use yaaf.Async.Manager.Flush.{kinds, Flushes, calls, passes, goes_on, flush-finished}
use yaaf.Async.Pool.Runs.{Runs, created, posted, worked, stepped}
use yaaf.Async.Pool.Choice.{first_default, or_else, first, choose_lem}
use yaaf.Async.Pool.Progress.{leavers, active_workers-Runs, work, Finished, work-Finished}
use yaaf.Async.Pool.Conservation.{IsBalanced, pool-IsBalanced, occurs}

-- Task 1 is a worker.
abbrev priority : TaskPtr → TaskPriority
priority ℕ.zero = default
priority (ℕ.suc n) = worker

choose_lem_example :
    choose priority none (1 ∷ 0 ∷ [])
    ≡ or_else (first_default priority (1 ∷ 0 ∷ [])) (first (1 ∷ 0 ∷ []))
choose_lem_example = choose_lem priority (1 ∷ 0 ∷ [])

abbrev filled : ThreadsPool
filled = (post 0 (new_pool 1)).1

abbrev taken : ThreadsPool
taken = stepped [] [] (pool_logic priority waiting single filled)

abbrev finished : ThreadsPool
finished = stepped [] [] (pool_logic priority (running 0) single taken)

abbrev done : ThreadsPool
done = stepped [] [] (pool_logic priority leaving single finished)

one_thread : filled.threads ≡ waiting ∷ []
unfolding post push_task new_pool
one_thread = refl

one_running : taken.threads ≡ running 0 ∷ []
unfolding post push_task new_pool pool_logic take_task choose priority_value
one_running = refl

one_leaving : finished.threads ≡ leaving ∷ []
unfolding post push_task new_pool pool_logic take_task after_apply choose priority_value
one_leaving = refl

is_new : (new_pool 1).is_stopped ≡ false
unfolding new_pool
is_new = refl

done-Runs : Runs priority (0 ∷ []) done
done-Runs = worked [] [] leaving single one_leaving (
    worked [] [] (running 0) single one_running
      (worked [] [] waiting single one_thread (posted 0 is_new (created 1))))

pool-IsBalanced_example : IsBalanced priority (0 ∷ []) done
pool-IsBalanced_example = pool-IsBalanced priority (0 ∷ []) done done-Runs

done_flushed : is_flushed priority done ≡ true
unfolding is_flushed post push_task new_pool pool_logic take_task after_apply lower_runned choose
    priority_value erase_found
done_flushed = refl

zero_default : is_worker priority 0 ≡ false
unfolding priority_value
zero_default = refl

active_workers-Runs_example :
    (active_workers done + length done.unlocked ≡ 1 + leavers done.threads)
    × (done.task_runned ≤ length done.threads)
active_workers-Runs_example = active_workers-Runs priority (0 ∷ []) done done-Runs

filled_ready : (filled.stop_flag ≡ false) × (length filled.in_queue ≡ 1)
unfolding post push_task new_pool
filled_ready = (refl, refl)

work-Finished_example : Finished priority filled (work priority 1 (filled, waiting))
work-Finished_example = work-Finished priority 1 filled filled_ready.0 filled_ready.1

-- A manager with one pool, for the kind 1: a task is posted, and a flush waits until it is done.
abbrev texts : Texts
texts = record { double_checks = true; ensure_text = []; unknown_kind = [] }

abbrev manager : ThreadManager
manager = record { stopping_begin = false; stopped = false; pools = (1, new_pool 1) ∷ [] }

abbrev given : ThreadManager
given = with_pool 1 filled manager

abbrev started : ThreadManager
started = with_pool 1 taken given

abbrev left : ThreadManager
left = with_pool 1 finished started

abbrev ended : ThreadManager
ended = with_pool 1 done left

manager_made :
    make_pools texts (record { threads_count = 1; kind = 1 } ∷ []) [] ≡ ok ((1, new_pool 1) ∷ [])
unfolding make_pools insert lookup
manager_made = refl

given_posted : post_kind texts 1 0 manager ≡ ok (some 0, given)
unfolding post_kind post new_pool lookup
given_posted = refl

pools_found :
    (lookup 1 given.pools ≡ some filled)
    × (lookup 1 started.pools ≡ some taken)
    × (lookup 1 ended.pools ≡ some done)
    × (lookup 1 left.pools ≡ some finished)
unfolding lookup insert
pools_found = (refl, refl, refl, refl)

given-kinds : kinds given ≡ 1 ∷ []
unfolding insert
given-kinds = refl

ended-Flushes : Flushes texts priority ((1, 0) ∷ []) [] ((1, 0) ∷ []) ended
ended-Flushes = passes 1 done pools_found.2 done_flushed (
    goes_on
      (goes_on
        (goes_on
          (subst (λ todo. Flushes texts priority ((1, 0) ∷ []) todo ((1, 0) ∷ []) given) given-kinds
            (calls (
              moved (made (record { threads_count = 1; kind = 1 } ∷ []) manager_made)
                (posts 1 0 0 given_posted))))
          (works 1 filled [] [] waiting single pools_found.0 one_thread))
        (works 1 taken [] [] (running 0) single pools_found.1 one_running))
      (works 1 finished [] [] leaving single pools_found.3 one_leaving))

flush-finished_example : occurs 0 (0 ∷ []) ≤ occurs 0 done.unlocked
flush-finished_example =
    flush-finished texts priority ((1, 0) ∷ []) ((1, 0) ∷ []) ended 1 done 0 ended-Flushes
      pools_found.2 zero_default
