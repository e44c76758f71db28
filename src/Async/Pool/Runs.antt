-- ===== src/Async/Pool/Runs.antt =====
-- libyaaf/utils/async/thread_pool.cpp: what a pool goes through from its constructor on, with the steps
-- of its threads and the calls of its users in any order.
use yaaf.Common.{ℕ, ◌≡◌, false, List, [], ◌∷◌, ◌++◌}
use yaaf.Async.Pool.{
  TaskPriority, ContinuationStrategy, TaskPtr, Thread, ThreadsPool, new_pool, push_task, post,
  begin_stop, end_stop, pool_logic,
}

-- Write back what a thread has become.
abbrev pub stepped : List Thread → List Thread → ThreadsPool × Thread → ThreadsPool
stepped before after (p, th) = record p { threads = before ++ th ∷ after }

-- `Runs priority ts p`: the pool is `p`, and has accepted the tasks `ts`, newest first.
pub data Runs (priority : TaskPtr → TaskPriority) : List TaskPtr → ThreadsPool → Type 0 where
  created : (threads_count : ℕ) → Runs priority [] (new_pool threads_count)
  posted :
      {ts : List TaskPtr} {p : ThreadsPool} (t : TaskPtr)
      → p.is_stopped ≡ false
      → Runs priority ts p
      → Runs priority (t ∷ ts) (post t p).1
  -- The push of a call of `post` that has looked at `_is_stoped` at some time before.
  pushed :
      {ts : List TaskPtr} {p : ThreadsPool} (t : TaskPtr)
      → Runs priority ts p
      → Runs priority (t ∷ ts) (push_task t p)
  worked :
      {ts : List TaskPtr} {p : ThreadsPool} (before after : List Thread) (th : Thread)
      (answer : ContinuationStrategy)
      → p.threads ≡ before ++ th ∷ after
      → Runs priority ts p
      → Runs priority ts (stepped before after (pool_logic priority th answer p))
  stops :
      {ts : List TaskPtr} {p : ThreadsPool} → Runs priority ts p → Runs priority ts (begin_stop p)
  joined :
      {ts : List TaskPtr} {p : ThreadsPool} → Runs priority ts p → Runs priority ts (end_stop p)
