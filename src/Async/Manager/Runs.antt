-- ===== src/Async/Manager/Runs.antt =====
-- libyaaf/utils/async/thread_manager.cpp: what a manager goes through, with the calls of its users and the
-- steps of its pools' threads in any order.
use yaaf.Common.{
  ℕ, ◌≡◌, subst, true, false, if◌then◌else◌, none, some, List, [], ◌∷◌, ◌++◌, ◌==◌, nat_eq, lookup,
  insert, lookup-insert, arith, Bool-cases, inl, inr, beq→eq, beq_refl, Option-cases, ◌⊎◌,
}
use yaaf.Common.Outcomes.{ok}
use yaaf.Async.Pool.{
  TaskPriority, ContinuationStrategy, TaskPtr, Thread, ThreadsPool, new_pool, push_task, post,
  begin_stop, end_stop, pool_logic,
}
use yaaf.Async.Pool.Runs.{Runs, created, posted, pushed, worked, stops, joined, stepped}
use yaaf.Async.Manager.{PoolParams, ThreadManager, Texts, make_pools, post_kind}

-- A task that was accepted, with its kind.
abbrev pub Accepted : Type 0
Accepted = List (ℕ × TaskPtr)

abbrev pub tasks_of : ℕ → Accepted → List TaskPtr
tasks_of k [] = []
tasks_of k ((j, t) ∷ ts) = if j == k then t ∷ tasks_of k ts else tasks_of k ts

-- Another pool for a kind.
abbrev pub with_pool : ℕ → ThreadsPool → ThreadManager → ThreadManager
with_pool k p m = record m { pools = insert k p m.pools }

module _ (texts : Texts) (priority : TaskPtr → TaskPriority) where
  -- A call of `post`, or the end of one, a step of a thread, and what `stop` does to a pool.
  pub data Move : Accepted → ThreadManager → Accepted → ThreadManager → Type 0 where
    posts :
        {ts : Accepted} {m m' : ThreadManager} (k : ℕ) (t u : TaskPtr)
        → post_kind texts k t m ≡ ok (some u, m')
        → Move ts m ((k, t) ∷ ts) m'
    -- The push of a call of `post` that has made its checks at some time before.
    pushes :
        {ts : Accepted} {m : ThreadManager} (k : ℕ) (t : TaskPtr) (p : ThreadsPool)
        → lookup k m.pools ≡ some p
        → Move ts m ((k, t) ∷ ts) (with_pool k (push_task t p) m)
    refused :
        {ts : Accepted} {m m' : ThreadManager} (k : ℕ) (t : TaskPtr)
        → post_kind texts k t m ≡ ok (none, m')
        → Move ts m ts m'
    works :
        {ts : Accepted} {m : ThreadManager} (k : ℕ) (p : ThreadsPool) (before after : List Thread)
        (th : Thread) (answer : ContinuationStrategy)
        → lookup k m.pools ≡ some p
        → p.threads ≡ before ++ th ∷ after
        → Move ts m ts (with_pool k (stepped before after (pool_logic priority th answer p)) m)
    begins : {ts : Accepted} {m : ThreadManager} → Move ts m ts (record m { stopping_begin = true })
    halts :
        {ts : Accepted} {m : ThreadManager} (k : ℕ) (p : ThreadsPool)
        → lookup k m.pools ≡ some p
        → Move ts m ts (with_pool k (begin_stop p) m)
    joins :
        {ts : Accepted} {m : ThreadManager} (k : ℕ) (p : ThreadsPool)
        → lookup k m.pools ≡ some p
        → Move ts m ts (with_pool k (end_stop p) m)

  -- The constructor, and then any moves. The pairs are the tasks that were accepted, newest first.
  pub data Manages : Accepted → ThreadManager → Type 0 where
    made :
        (params : List PoolParams) {pools : List (ℕ × ThreadsPool)}
        → make_pools texts params [] ≡ ok pools
        → Manages [] (record { stopping_begin = false; stopped = false; pools = pools })
    moved :
        {ts ts' : Accepted} {m m' : ThreadManager}
        → Manages ts m
        → Move ts m ts' m'
        → Manages ts' m'

  -- Each pool is in a run of its own.
  abbrev pub HasRuns : Accepted → ThreadManager → Type 0
  HasRuns ts m =
      (k : ℕ) (p : ThreadsPool) → lookup k m.pools ≡ some p → Runs priority (tasks_of k ts) p

  make_pools-HasRuns :
      (params : List PoolParams) (pools built : List (ℕ × ThreadsPool))
      → ((k : ℕ) (p : ThreadsPool) → lookup k pools ≡ some p → Runs priority [] p)
      → make_pools texts params pools ≡ ok built
      → (k : ℕ) (p : ThreadsPool) → lookup k built ≡ some p
      → Runs priority [] p
  unfolding make_pools
  make_pools-HasRuns [] pools built h e = λ k p found. h k p (ground arith)
  make_pools-HasRuns (kv ∷ params) pools built h e =
      make_pools-HasRuns params (insert kv.kind (new_pool kv.threads_count) pools) built
        (λ k p found. elim (Bool-cases (kv.kind == k)) [
          | inl same ↦
              subst (Runs priority [])
                (ground
                  (arith, found, same, lookup-insert kv.kind k (new_pool kv.threads_count) pools))
                (created kv.threads_count)
          | inr other ↦ h k p (
              ground
                (arith, found, other, lookup-insert kv.kind k (new_pool kv.threads_count) pools))
        ])
        (ground arith)

  -- A pool that is exchanged for another one in a run of the same tasks.
  exchanged-HasRuns :
      (ts : Accepted) (m : ThreadManager) (k : ℕ) (p : ThreadsPool)
      → ((j : ℕ) (q : ThreadsPool)
          → (k == j) ≡ false
          → lookup j m.pools ≡ some q
          → Runs priority (tasks_of j ts) q)
      → Runs priority (tasks_of k ts) p
      → HasRuns ts (with_pool k p m)
  exchanged-HasRuns ts m k p h r j q found = elim (Bool-cases (k == j)) [
    | inl same ↦
        subst (λ i. Runs priority (tasks_of i ts) q) (beq→eq k j same)
          (subst (Runs priority (tasks_of k ts))
            (ground (arith, found, same, lookup-insert k j p m.pools)) r)
    | inr other ↦ h j q other (ground (arith, found, other, lookup-insert k j p m.pools))
  ]

  -- What `post` has done when it has taken a task, and when it has not.
  pub record Took (k : ℕ) (t : TaskPtr) (m m' : ThreadManager) : Type 0 where
    pub target : ThreadsPool
    pub there : lookup k m.pools ≡ some target
    pub live : target.is_stopped ≡ false
    pub after : with_pool k (post t target).1 m ≡ m'

  pub post_kind-Took :
      (k : ℕ) (t u : TaskPtr) (m m' : ThreadManager)
      → post_kind texts k t m ≡ ok (some u, m')
      → Took k t m m'
  unfolding post_kind post
  post_kind-Took k t u m m' e = elim (Option-cases (lookup k m.pools)) [
    | inl missing ↦ absurd (ground (arith, missing))
    | inr (p, there) ↦ elim (Bool-cases p.is_stopped) [
      | inl halted ↦ absurd (ground (arith, there, halted))
      | inr live ↦ record {
        target = p;
        there = there;
        live = live;
        after = ground (arith, there, live);
      }
    ]
  ]

  pub post_kind-refused :
      (k : ℕ) (t : TaskPtr) (m m' : ThreadManager)
      → post_kind texts k t m ≡ ok (none, m')
      → (m ≡ m') ⊎ ((p : ThreadsPool) × (lookup k m.pools ≡ some p) × (with_pool k p m ≡ m'))
  unfolding post_kind post
  post_kind-refused k t m m' e = elim (Bool-cases m.stopping_begin) [
    | inl stopping ↦ inl (ground (arith, stopping))
    | inr going ↦ elim (Option-cases (lookup k m.pools)) [
      | inl missing ↦ absurd (ground (arith, going, missing))
      | inr (p, there) ↦ elim (Bool-cases p.is_stopped) [
        | inl halted ↦ inr (p, there, ground (arith, going, there, halted))
        | inr live ↦ absurd (ground (arith, going, there, live))
      ]
    ]
  ]

  Move-HasRuns :
      (ts ts' : Accepted) (m m' : ThreadManager) → Move ts m ts' m' → HasRuns ts m → HasRuns ts' m'
  Move-HasRuns ts _ m m' (posts k t u e) h =
      let took = post_kind-Took k t u m m' e in
      subst (HasRuns ((k, t) ∷ ts)) took.after (
        exchanged-HasRuns ((k, t) ∷ ts) m k (post t took.target).1
          (λ j q other found. rw other (h j q found))
          (rw (beq_refl k) (posted t took.live (h k took.target took.there))))
  Move-HasRuns ts _ m _ (pushes k t p there) h =
      exchanged-HasRuns ((k, t) ∷ ts) m k (push_task t p)
        (λ j q other found. rw other (h j q found)) (rw (beq_refl k) (pushed t (h k p there)))
  Move-HasRuns ts _ m m' (refused k t e) h = elim (post_kind-refused k t m m' e) [
    | inl same ↦ subst (HasRuns ts) same h
    | inr (p, there, same) ↦
        subst (HasRuns ts) same (exchanged-HasRuns ts m k p (λ j q other. h j q) (h k p there))
  ]
  Move-HasRuns ts _ m _ (works k p before after th answer there split) h =
      exchanged-HasRuns ts m k _ (λ j q other. h j q)
        (worked before after th answer split (h k p there))
  Move-HasRuns ts _ m _ begins h = h
  Move-HasRuns ts _ m _ (halts k p there) h =
      exchanged-HasRuns ts m k _ (λ j q other. h j q) (stops (h k p there))
  Move-HasRuns ts _ m _ (joins k p there) h =
      exchanged-HasRuns ts m k _ (λ j q other. h j q) (joined (h k p there))

  -- In every run of a manager each of its pools is in a run of its own, and has accepted exactly the
  -- tasks that were posted for its kind.
  pub Manages-HasRuns : (ts : Accepted) (m : ThreadManager) → Manages ts m → HasRuns ts m
  unfolding lookup
  Manages-HasRuns _ _ (made params {pools} e) =
      make_pools-HasRuns params [] pools (λ k p found. absurd (ground arith)) e
  Manages-HasRuns _ _ (moved {ts} {ts'} {m} {m'} r move) =
      Move-HasRuns ts ts' m m' move (Manages-HasRuns ts m r)
