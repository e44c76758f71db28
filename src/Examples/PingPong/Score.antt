-- ===== src/Examples/PingPong/Score.antt =====
-- examples/ping_pong_example.cpp: the game has one ball, and `pings` counts it.
use yaaf.Common.{
  ℕ, ◌+◌, ◌*◌, ◌/◌, ◌%◌, ◌≤◌, ◌≡◌, ◌⊎◌, refl, sym, subst, ◌∙◌, Bool, true, false, if◌then◌else◌,
  some, List, [], ◌∷◌, arith, inl, inr, nat_eq, ◌==◌, lookup, Str,
}
use yaaf.Context.State.{Context, on_init, ActorPtr, Event}
use yaaf.Actor.{BaseActor}
use yaaf.Context.State.{BoxPtr}
use yaaf.Context.Worker.Exclusive.{applies}
use yaaf.Examples.PingPong.{Ball, int_max, pings, ping_actor, pong_actor, Play, began, works, runs}
use yaaf.Examples.PingPong.Opening.{main-opening, spectators, name_rest, posted_first}
use yaaf.Common.Outcomes.{ok-injective}
use yaaf.Examples.PingPong.Strokes.{to_pong, to_ping, pong_task, ping_task, game_at}
use yaaf.Examples.PingPong.Rally.Running.{runs-Scene}
use yaaf.Examples.PingPong.Rally.{
  works-Scene, Scene, opens, pong_turn, ping_turn, last, more, waiting,
}

abbrev pub even : ℕ → Bool
even n = n % 2 == 0

-- Nobody has got a number yet.
pub record IsOpening (s : Context Ball) : Type 0 where
  pub no_ball : (b : BoxPtr) → (s.boxes b).dqueue ≡ []
  pub none_counted : pings s.events ≡ 0

-- The number `n` fits an `int` and is the only mail of the players: of the pong actor if it is even, and else of the ping
-- actor. At most one task is to apply a player to its mail.
pub record IsRally (n : ℕ) (s : Context Ball) : Type 0 where
  pub fits : n ≤ int_max
  pub ping_box : lookup 4 s.mboxes ≡ some 3
  pub pong_box : lookup 5 s.mboxes ≡ some 4
  pub ping_mail : (s.boxes 3).dqueue ≡ (if even n then [] else to_ping n ∷ [])
  pub pong_mail : (s.boxes 4).dqueue ≡ (if even n then to_pong n ∷ [] else [])
  pub counted : pings s.events ≡ n / 2
  pub one_task : applies ping_actor s.posted + applies pong_actor s.posted ≤ 1

one_task-pong :
    (rest : Str) (late busy : Bool)
    → applies ping_actor (waiting late busy (pong_task rest))
        + applies pong_actor (waiting late busy (pong_task rest))
      ≤ 1
unfolding applies
one_task-pong rest true true = omega arith
one_task-pong rest true false = omega arith
one_task-pong rest false true = omega arith
one_task-pong rest false false = omega arith

one_task-ping :
    (rest : Str) (late busy : Bool)
    → applies ping_actor (waiting late busy (ping_task rest))
        + applies pong_actor (waiting late busy (ping_task rest))
      ≤ 1
unfolding applies
one_task-ping rest true true = omega arith
one_task-ping rest true false = omega arith
one_task-ping rest false true = omega arith
one_task-ping rest false false = omega arith

module _ (rest : Str) (others : ActorPtr → BaseActor) (late busy : Bool) (n : ℕ)
    (ev : List (Event Ball)) (count : pings ev ≡ n) where
  pub pong_turn-IsRally :
      2 * n ≤ int_max
      → IsRally (2 * n) (
          game_at rest others false busy []
            (to_pong (2 * n) ∷ [])
            (waiting late busy (pong_task rest))
            ev)
  unfolding lookup
  pong_turn-IsRally fits = record {
    fits = fits;
    ping_box = refl;
    pong_box = refl;
    ping_mail = ground arith;
    pong_mail = ground arith;
    counted = omega (arith, count);
    one_task = one_task-pong rest late busy;
  }

  pub ping_turn-IsRally :
      2 * n + 1 ≤ int_max
      → IsRally (2 * n + 1) (
          game_at rest others busy false
            (to_ping (2 * n + 1) ∷ [])
            []
            (waiting late busy (ping_task rest))
            ev)
  unfolding lookup
  ping_turn-IsRally fits = record {
    fits = fits;
    ping_box = refl;
    pong_box = refl;
    ping_mail = ground arith;
    pong_mail = ground arith;
    counted = omega (arith, count);
    one_task = one_task-ping rest late busy;
  }

Scene-cases : (rest : Str) (s : Context Ball) → Scene rest s → IsOpening s ⊎ ((n : ℕ) × IsRally n s)
Scene-cases rest s (opens others ks ev first none_yet) =
    inl (record { no_ball = λ b. refl; none_counted = none_yet })
Scene-cases rest s (pong_turn others late busy n ev count fits) =
    inr (2 * n, pong_turn-IsRally rest others late busy n ev count fits)
Scene-cases rest s (ping_turn others late busy n ev count fits) =
    inr (2 * n + 1, ping_turn-IsRally rest others late busy n ev count fits)

Play-Scene :
    (d : Bool) (self_id : ℕ) (s : Context Ball) → Play d self_id s → Scene (name_rest self_id) s
unfolding pings
Play-Scene d self_id s (began e) =
    subst (Scene (name_rest self_id)) (ok-injective (sym (main-opening self_id d) ∙ e)) (
      opens (spectators (name_rest self_id)) posted_first _
        (more 0 refl (more 1 refl (more 2 refl last))) none_yet)
  where
    none_yet : pings (on_init 3 ∷ on_init 2 ∷ on_init 1 ∷ on_init 0 ∷ []) ≡ 0
    none_yet = refl
Play-Scene d self_id t (works {s} l e play) =
    works-Scene (name_rest self_id) l s t (Play-Scene d self_id s play) e
Play-Scene d self_id t (runs {s} fuel k ks waits e play) =
    runs-Scene (name_rest self_id) d fuel k ks s t waits e (Play-Scene d self_id s play)

-- In every state of the game that is reached without an overflow of `int`, whatever locks the worker
-- gets and whenever it runs, either no number has been sent yet, or for some `n` that fits an `int` the
-- number `n` is the only mail of the players, the pong actor's if `n` is even and else the ping actor's,
-- the ping actor has handled half of `n` envelopes, and at most one task is to apply a player to its mail.
pub Play-IsRally :
    (double_checks : Bool) (self_id : ℕ) (s : Context Ball)
    → Play double_checks self_id s
    → IsOpening s ⊎ ((n : ℕ) × IsRally n s)
Play-IsRally double_checks self_id s play =
    Scene-cases _ s (Play-Scene double_checks self_id s play)
