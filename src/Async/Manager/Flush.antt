-- ===== src/Async/Manager/Flush.antt =====
-- libyaaf/utils/async/thread_manager.cpp: `flush`, which waits for one pool after another while the
-- manager goes on.
use yaaf.Common.{
  ℕ, ◌≤◌, ◌≡◌, refl, ap, subst, true, false, none, some, List, [], ◌∷◌, ◌==◌, nat_eq, nat_beq_iff,
  lookup, lookup-insert, contains, map, arith, Bool-cases, Option-cases, inl, inr,
}
use yaaf.Async.Pool.{
  TaskPriority, ContinuationStrategy, single, repeat, TaskPtr, Thread, waiting, running, repeating,
  putting, leaving, returned, look_again, put_back, lower_runned, ThreadsPool, post, pool_logic,
  take_task, after_apply, push_task, begin_stop, end_stop, is_worker, is_flushed, choose,
}
use yaaf.Async.Pool.Conservation.{occurs, is_flushed-finished}
use yaaf.Async.Manager.{ThreadManager, Texts}
use yaaf.Async.Manager.Runs.{
  Accepted, tasks_of, with_pool, Move, posts, pushes, refused, works, begins, halts, joins, Manages,
  moved, Manages-HasRuns, post_kind-Took, post_kind-refused,
}

-- The kinds of the pools, in the order of the loop.
abbrev pub kinds : ThreadManager → List ℕ
kinds m = map (λ (kv : ℕ × ThreadsPool). kv.0) m.pools

module _ (texts : Texts) (priority : TaskPtr → TaskPriority) where
  -- `Flushes before todo ts m`: a `flush` began when the tasks `before` had been accepted, and has not
  -- yet got to the pools `todo`. It goes on from a pool when that pool's `flush` returns.
  pub data Flushes (before : Accepted) : List ℕ → Accepted → ThreadManager → Type 0 where
    calls :
        {m : ThreadManager} → Manages texts priority before m → Flushes before (kinds m) before m
    passes :
        {todo : List ℕ} {ts : Accepted} {m : ThreadManager} (k : ℕ) (p : ThreadsPool)
        → lookup k m.pools ≡ some p
        → is_flushed priority p ≡ true
        → Flushes before (k ∷ todo) ts m
        → Flushes before todo ts m
    goes_on :
        {todo : List ℕ} {ts ts' : Accepted} {m m' : ThreadManager}
        → Flushes before todo ts m
        → Move texts priority ts m ts' m'
        → Flushes before todo ts' m'

  Flushes-Manages :
      (before : Accepted) (todo : List ℕ) (ts : Accepted) (m : ThreadManager)
      → Flushes before todo ts m
      → Manages texts priority ts m
  Flushes-Manages before _ _ m (calls r) = r
  Flushes-Manages before todo ts m (passes k p there done f) =
      Flushes-Manages before (k ∷ todo) ts m f
  Flushes-Manages before _ _ _ (goes_on {todo} {ts} {ts'} {m} f move) =
      moved (Flushes-Manages before todo ts m f) move

  module _ (t : TaskPtr) where
    -- A task that is finished stays finished.
    occurs-pool_logic :
        (th : Thread) (answer : ContinuationStrategy) (p : ThreadsPool)
        → occurs t p.unlocked ≤ occurs t (pool_logic priority th answer p).0.unlocked
    unfolding pool_logic take_task after_apply look_again put_back lower_runned push_task
    occurs-pool_logic waiting answer p = elim (Option-cases (choose priority none p.in_queue)) [
      | inl e ↦ ground arith
      | inr (v, e) ↦ ground arith
    ]
    occurs-pool_logic (running v) single p = ground arith
    occurs-pool_logic (running v) repeat p = ground arith
    occurs-pool_logic (repeating v) answer p = ground arith
    occurs-pool_logic (putting v) answer p = ground arith
    occurs-pool_logic leaving answer p = omega arith
    occurs-pool_logic returned answer p = omega arith

    occurs-post : (u : TaskPtr) (p : ThreadsPool) → (post u p).1.unlocked ≡ p.unlocked
    unfolding post push_task
    occurs-post u p = ground arith

    -- At least `n` runs of it are finished in the pool for `k`.
    abbrev HasFinished : ℕ → ℕ → ThreadManager → Type 0
    HasFinished n k m = (p : ThreadsPool) → lookup k m.pools ≡ some p → n ≤ occurs t p.unlocked

    exchanged-HasFinished :
        (n k j : ℕ) (m : ThreadManager) (p q : ThreadsPool)
        → lookup j m.pools ≡ some p
        → occurs t p.unlocked ≤ occurs t q.unlocked
        → HasFinished n k m
        → HasFinished n k (with_pool j q m)
    exchanged-HasFinished n k j m p q there more h r found = elim (Bool-cases (j == k)) [
      | inl same ↦
          ground
            (arith, lookup-insert j k q m.pools, h p, nat_beq_iff j k, found, same, there, more)
      | inr other ↦ h r (ground (arith, found, other, lookup-insert j k q m.pools))
    ]

    Move-HasFinished :
        (n k : ℕ) (ts ts' : Accepted) (m m' : ThreadManager)
        → Move texts priority ts m ts' m'
        → HasFinished n k m
        → HasFinished n k m'
    unfolding begin_stop end_stop push_task
    Move-HasFinished n k ts _ m m' (posts j u v e) h =
        let took = post_kind-Took texts priority j u v m m' e in
        subst (HasFinished n k) took.after (
          exchanged-HasFinished n k j m took.target (post u took.target).1 took.there
            (omega (arith, ap (occurs t) (occurs-post u took.target))) h)
    Move-HasFinished n k ts _ m m' (refused j u e) h =
        elim (post_kind-refused texts priority j u m m' e) [
          | inl same ↦ subst (HasFinished n k) same h
          | inr (p, there, same) ↦
              subst (HasFinished n k) same (exchanged-HasFinished n k j m p p there (omega arith) h)
        ]
    Move-HasFinished n k ts _ m _ (pushes j u p there) h =
        exchanged-HasFinished n k j m p _ there (omega arith) h
    Move-HasFinished n k ts _ m _ (works j p before after th answer there split) h =
        exchanged-HasFinished n k j m p _ there (occurs-pool_logic th answer p) h
    Move-HasFinished n k ts _ m _ begins h = h
    Move-HasFinished n k ts _ m _ (halts j p there) h =
        exchanged-HasFinished n k j m p _ there (omega arith) h
    Move-HasFinished n k ts _ m _ (joins j p there) h =
        exchanged-HasFinished n k j m p _ there (omega arith) h

    grows :
        (k : ℕ) (ts ts' : Accepted) (m m' : ThreadManager)
        → Move texts priority ts m ts' m'
        → occurs t (tasks_of k ts) ≤ occurs t (tasks_of k ts')
    grows k ts _ m m' (posts j u v e) = ground arith
    grows k ts _ m m' (pushes j u p there) = ground arith
    grows k ts _ m m' _ = omega arith

    flush-grows :
        (before : Accepted) (k : ℕ) (todo : List ℕ) (ts : Accepted) (m : ThreadManager)
        → Flushes before todo ts m
        → occurs t (tasks_of k before) ≤ occurs t (tasks_of k ts)
    flush-grows before k _ _ m (calls r) = omega arith
    flush-grows before k todo ts m (passes j p there done f) =
        flush-grows before k (j ∷ todo) ts m f
    flush-grows before k _ _ m' (goes_on {todo} {ts} {ts'} {m} f move) =
        omega (arith, flush-grows before k todo ts m f, grows k ts ts' m m' move)

    contains-kinds :
        (k : ℕ) (pools : List (ℕ × ThreadsPool)) (p : ThreadsPool)
        → lookup k pools ≡ some p
        → contains k (map (λ (kv : ℕ × ThreadsPool). kv.0) pools) ≡ true
    unfolding lookup contains
    contains-kinds k [] p e = absurd (ground arith)
    contains-kinds k ((j, q) ∷ pools) p e = ground (arith, contains-kinds k pools p)

    flush-HasFinished :
        (before : Accepted) (k : ℕ) (todo : List ℕ) (ts : Accepted) (m : ThreadManager)
        → is_worker priority t ≡ false
        → Flushes before todo ts m
        → contains k todo ≡ false
        → HasFinished (occurs t (tasks_of k before)) k m
    unfolding contains
    flush-HasFinished before k _ _ m own (calls r) gone =
        λ p found. absurd (ground (arith, gone, contains-kinds k m.pools p found))
    flush-HasFinished before k todo ts m own (passes j q there done f) gone = λ p found.
        elim (Bool-cases (j == k)) [
          | inl same ↦
              let run =
                Manages-HasRuns texts priority ts m (Flushes-Manages before (j ∷ todo) ts m f) k p
                  found in
              let is : q ≡ p = ground (arith, there, found, nat_beq_iff j k, same) in
              omega (
                arith,
                flush-grows before k (j ∷ todo) ts m f,
                is_flushed-finished priority (tasks_of k ts) p t run
                    (subst (λ r. is_flushed priority r ≡ true) is done) own,
              )
          | inr other ↦
              flush-HasFinished before k (j ∷ todo) ts m own f (ground (arith, other, gone)) p found
        ]
    flush-HasFinished before k _ _ m' own (goes_on {todo} {ts} {ts'} {m} f move) gone =
        Move-HasFinished (occurs t (tasks_of k before)) k ts ts' m m' move
          (flush-HasFinished before k todo ts m own f gone)

  -- When `flush` returns, whatever else was posted and run meanwhile, each task of the default priority
  -- that a pool had accepted before it has been run to its end at least as often as it was accepted.
  pub flush-finished :
      (before ts : Accepted) (m : ThreadManager) (k : ℕ) (p : ThreadsPool) (t : TaskPtr)
      → Flushes before [] ts m
      → lookup k m.pools ≡ some p
      → is_worker priority t ≡ false
      → occurs t (tasks_of k before) ≤ occurs t p.unlocked
  unfolding contains
  flush-finished before ts m k p t f found own =
      flush-HasFinished t before k [] ts m own f refl p found
