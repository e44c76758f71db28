-- ===== src/Actor/Lock.antt =====
-- libyaaf/actor.cpp: `try_lock`, as the lock that keeps one worker at an actor's mailbox.
use yaaf.Common.{Bool, not, ◌&&◌, ◌||◌, ◌≡◌, arith}
use yaaf.Actor.{BaseActor, try_lock}

-- Whatever other threads do between its two reads, `try_lock` succeeds exactly when the actor is
-- free at both reads. Afterwards the actor is busy if it succeeded, and otherwise what the other
-- threads made of it.
pub try_lock_lem :
    (between : Bool → Bool) (a : BaseActor)
    → ((try_lock between a).0 ≡ (not a.busy && not (between a.busy)))
      × ((try_lock between a).1.busy ≡ ((try_lock between a).0 || between a.busy))
unfolding try_lock
try_lock_lem between a = ground arith
