-- ===== src/Async/Manager.antt =====
-- libyaaf/utils/async/thread_manager.h and thread_manager.cpp: a pool of threads for each kind.
pub mod Runs
pub mod Flush
use yaaf.Common.{
  ◌≡◌, arith, ℕ, ◌+◌, Bool, true, if◌then◌else◌, Option, none, some, List, [], ◌∷◌, Str, lookup,
  insert, is_some, nat_eq,
}
use yaaf.Common.Outcomes.{Outcome, ok, thrown}
use yaaf.Async.Pool.{ThreadsPool, TaskPtr, new_pool, post, active_workers}

-- `threads_pool::params_t`.
pub record PoolParams : Type 0 where
  pub threads_count : ℕ
  pub kind : ℕ

pub record ThreadManager : Type 0 where
  pub stopping_begin : Bool
  pub stopped : Bool
  pub pools : List (ℕ × ThreadsPool)

-- The build's `DOUBLE_CHECKS`, and the texts of the exceptions.
pub record Texts : Type 0 where
  pub double_checks : Bool
  pub ensure_text : Str
  pub unknown_kind : Str

module _ (texts : Texts) where
  -- The loop of the constructor.
  unfoldable pub make_pools :
      List PoolParams → List (ℕ × ThreadsPool) → Outcome (List (ℕ × ThreadsPool))
  make_pools [] pools = ok pools
  make_pools (kv ∷ params) pools =
      let rest = make_pools params (insert kv.kind (new_pool kv.threads_count) pools) in
      if texts.double_checks
      then (if is_some (lookup kv.kind pools) then thrown texts.ensure_text else rest)
      else rest

  posted_to :
      ℕ → TaskPtr → ThreadManager → Option ThreadsPool → Outcome (Option TaskPtr × ThreadManager)
  posted_to kind t m none = thrown texts.unknown_kind
  posted_to kind t m (some target) =
      ok ((post t target).0, record m { pools = insert kind (post t target).1 m.pools })

  -- `thread_manager::post`.
  unfoldable pub post_kind : ℕ → TaskPtr → ThreadManager → Outcome (Option TaskPtr × ThreadManager)
  unfolding posted_to
  post_kind kind t m =
      if m.stopping_begin then ok (none, m) else posted_to kind t m (lookup kind m.pools)

-- `thread_manager::stop`: the pools stop one after another and are dropped.
unfoldable pub stop : ThreadManager → ThreadManager
stop m =
    if m.stopped
    then record m { stopping_begin = true }
    else record { stopping_begin = true; stopped = true; pools = [] }

unfoldable pub active_works : List (ℕ × ThreadsPool) → ℕ
active_works [] = 0
active_works ((k, p) ∷ pools) = active_workers p + active_works pools

-- After `stop`, also a second one, `post` of any kind takes no task, throws nothing and changes nothing.
pub post_kind-stop :
    (texts : Texts) (kind : ℕ) (t : TaskPtr) (m : ThreadManager)
    → post_kind texts kind t (stop m) ≡ ok (none, stop m)
unfolding post_kind stop
post_kind-stop texts kind t m = ground arith
