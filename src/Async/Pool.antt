-- ===== src/Async/Pool.antt =====
-- libyaaf/utils/async/task.h, task.cpp, thread_pool.h and thread_pool.cpp: tasks, and the threads of
-- one pool that take them from a queue. A step of a thread is one critical section, or what it does to a
-- result or to the atomic counter outside of them.
pub mod Runs
pub mod Choice
pub mod Conservation
pub mod Progress
use yaaf.Common.{
  ℕ, suc, ◌+◌, ◌-◌, Bool, true, false, not, ◌||◌, ◌&&◌, ltb, if◌then◌else◌, Option, none, some,
  List, [], ◌∷◌, ◌++◌, length, all, ◌==◌, nat_eq, nat_beq,
}
use yaaf.Common.Outcomes.{Outcome, ok, null_deref}

pub data TaskPriority : Type 0 where
  default worker : TaskPriority

-- The numbers of the enumerators.
unfoldable pub priority_value : TaskPriority → ℕ
priority_value default = 0
priority_value worker = 255

pub data ContinuationStrategy : Type 0 where
  single repeat : ContinuationStrategy

-- `task_wrapper_ptr`: the queue and the threads hold tasks by pointer.
abbrev pub TaskPtr : Type 0
TaskPtr = ℕ

-- Where a thread is: it waits for a task; it applies one; its task has answered REPEAT, and it is about to
-- look at the queue; it is about to put its task back; it is about to lower `_task_runned`; it has
-- returned.
pub data Thread : Type 0 where
  waiting : Thread
  running : TaskPtr → Thread
  repeating : TaskPtr → Thread
  putting : TaskPtr → Thread
  leaving : Thread
  returned : Thread

-- `threads_pool`. `unlocked` lists the tasks whose result was unlocked, newest first.
pub record ThreadsPool : Type 0 where
  pub threads : List Thread
  pub in_queue : List TaskPtr
  pub stop_flag : Bool
  pub is_stopped : Bool
  pub task_runned : ℕ
  pub unlocked : List TaskPtr

waiting_threads : ℕ → List Thread
waiting_threads ℕ.zero = []
waiting_threads (suc n) = waiting ∷ waiting_threads n

-- The constructor.
unfoldable pub new_pool : ℕ → ThreadsPool
unfolding waiting_threads
new_pool threads_count = record {
  threads = waiting_threads threads_count;
  in_queue = [];
  stop_flag = false;
  is_stopped = false;
  task_runned = 0;
  unlocked = [];
}

unfoldable pub push_task : TaskPtr → ThreadsPool → ThreadsPool
push_task t p = record p { in_queue = p.in_queue ++ (t ∷ []) }

-- `post`: the task whose result is returned, or a null pointer.
unfoldable pub post : TaskPtr → ThreadsPool → Option TaskPtr × ThreadsPool
unfolding push_task
post t p = if p.is_stopped then (none, p) else (some t, push_task t p)

-- `stop`, as far as the joins, and behind them.
unfoldable pub begin_stop : ThreadsPool → ThreadsPool
begin_stop p = record p { stop_flag = true }

unfoldable pub end_stop : ThreadsPool → ThreadsPool
end_stop p = record p { is_stopped = true }

unfoldable pub active_workers : ThreadsPool → ℕ
active_workers p = length p.in_queue + p.task_runned

-- `erase` of what `std::find` finds.
unfoldable pub erase_found : TaskPtr → List TaskPtr → List TaskPtr
erase_found t [] = []
erase_found t (v ∷ q) = let rest = erase_found t q in if v == t then q else v ∷ rest

-- `task_result::unlock`.
unfoldable pub unlock : TaskPtr → ThreadsPool → ThreadsPool
unlock t p = record p { unlocked = t ∷ p.unlocked }

-- `task_wrapper::apply`, when the task has answered.
unfoldable pub apply_task : TaskPtr → ContinuationStrategy → ThreadsPool → ThreadsPool
unfolding unlock
apply_task t single p = unlock t p
apply_task t repeat p = p

module _ (priority : TaskPtr → TaskPriority) where
  abbrev pub is_worker : TaskPtr → Bool
  is_worker t = nat_beq (priority_value (priority t)) 255

  -- The loop of `_pool_logic` that chooses from the queue; `task` is the choice so far.
  unfoldable pub choose : Option TaskPtr → List TaskPtr → Option TaskPtr
  choose task [] = task
  choose none (v ∷ q) = if not (is_worker v) then some v else choose (some v) q
  choose (some t) (v ∷ q) =
      if ltb (priority_value (priority v)) (priority_value (priority t))
      then some v
      else choose (some t) q

  took : Option TaskPtr → ThreadsPool → ThreadsPool × Thread
  took none p = (p, waiting)
  took (some t) p =
      (record p { task_runned = suc p.task_runned; in_queue = erase_found t p.in_queue }, running t)

  has_more : List TaskPtr → Bool
  has_more [] = false
  has_more (v ∷ q) = true

  -- A thread behind `_condition.wait`. With an empty queue it goes on waiting.
  unfoldable pub take_task : ThreadsPool → ThreadsPool × Thread
  unfolding took
  take_task p = if p.stop_flag then (p, returned) else took (choose none p.in_queue) p

  -- `apply` has answered, and has unlocked the result if the answer is SINGLE.
  unfoldable pub after_apply : TaskPtr → ContinuationStrategy → ThreadsPool → ThreadsPool × Thread
  unfolding apply_task
  after_apply t single p = (apply_task t single p, leaving)
  after_apply t repeat p = (apply_task t repeat p, repeating t)

  -- The look at the queue, under `_queue_mutex`.
  unfoldable pub look_again : TaskPtr → ThreadsPool → ThreadsPool × Thread
  unfolding has_more
  look_again t p =
      if has_more p.in_queue || p.stop_flag || is_worker t then (p, putting t) else (p, running t)

  -- `push_task(task)`, under `_queue_mutex` once more.
  unfoldable pub put_back : TaskPtr → ThreadsPool → ThreadsPool × Thread
  unfolding push_task
  put_back t p = (push_task t p, leaving)

  -- `--_task_runned`, under no lock.
  unfoldable pub lower_runned : ThreadsPool → ThreadsPool × Thread
  lower_runned p = (record p { task_runned = p.task_runned - 1 }, waiting)

  -- One step of a thread in `_pool_logic`; `answer` is what its task answers.
  unfoldable pub pool_logic : Thread → ContinuationStrategy → ThreadsPool → ThreadsPool × Thread
  unfolding take_task after_apply look_again put_back lower_runned
  pool_logic waiting answer p = take_task p
  pool_logic (running t) answer p = after_apply t answer p
  pool_logic (repeating t) answer p = look_again t p
  pool_logic (putting t) answer p = put_back t p
  pool_logic leaving answer p = lower_runned p
  pool_logic returned answer p = (p, returned)

  -- What `flush` waits for.
  unfoldable pub is_flushed : ThreadsPool → Bool
  is_flushed p = all is_worker p.in_queue && nat_beq p.task_runned 0
