-- ===== src/Examples/PingPong/Rally/Running.antt =====
-- examples/ping_pong_example.cpp: what a task of the user's thread makes of the game.
use yaaf.Common.{
  ltb, ◌≤◌, Bool-cases, inl, inr, ℕ, zero, suc, ◌+◌, ◌*◌, ◌≡◌, refl, sym, ap, subst, ◌∙◌, Bool,
  true, false, List, [], ◌∷◌, Str, arith, nat_eq,
}
use yaaf.Common.Outcomes.{Outcome, ok, out_of_fuel, ok-injective}
use yaaf.Context.State.{
  Context, ActorPtr, UserTask, Event, on_start, on_child_status, action_handle,
}
use yaaf.Context.Supervision.{run_task}
use yaaf.Actor.{BaseActor, normal}
use yaaf.Examples.PingPong.{Ball, int_max, game, pings, ping_actor, pong_actor, usr_actor}
use yaaf.Examples.PingPong.Court.{opening, ping_address}
use yaaf.Examples.PingPong.Opening.{run_task-others, run_task-ping_on_start}
use yaaf.Examples.PingPong.Strokes.Tasks.{
  run_task-pong, run_task-ping, run_task-pong_over, run_task-ping_over, run_task-pong_short,
  run_task-ping_short,
}
use yaaf.Examples.PingPong.Strokes.{to_pong, to_ping, pong_task, ping_task, game_at}
use yaaf.Examples.PingPong.Rally.{Scene, opens, pong_turn, ping_turn, IsFirst, last, more, waiting}

module _ (rest : Str) where
  module _ (d : Bool) where
    -- What a user thread does with the list of the waiting tasks.
    runs_first : ℕ → Context Ball → List UserTask → Outcome (Context Ball)
    runs_first fuel s [] = out_of_fuel
    runs_first fuel s (k ∷ ks) = run_task (game d) fuel k (record s { posted = ks })

    opens-runs :
        (others : ActorPtr → BaseActor) (ks : List UserTask) (ev : List (Event Ball)) (fuel : ℕ)
        (t : Context Ball)
        → IsFirst ks
        → pings ev ≡ 0
        → runs_first fuel (opening rest others ks ev) ks ≡ ok t
        → Scene rest t
    unfolding runs_first pings
    opens-runs others _ ev fuel t last none_yet e =
        subst (Scene rest)
          (ok-injective (sym (run_task-ping_on_start d fuel rest others [] ev) ∙ e))
          (pong_turn others true false 0 _ none_yet (omega arith))
    opens-runs others _ ev fuel t (more a {ks} other first) none_yet e =
        subst (Scene rest)
          (ok-injective (sym (run_task-others d fuel a (opening rest others ks ev) other) ∙ e))
          (opens others ks (on_start a ∷ ev) first none_yet)

    pong_plays :
        (others : ActorPtr → BaseActor) (n : ℕ) (ev : List (Event Ball)) (fuel : ℕ)
        (t : Context Ball)
        → pings ev ≡ n
        → ltb (2 * n) int_max ≡ true
        → run_task
            (game d)
            (suc fuel)
            (pong_task rest)
            (game_at rest others false true [] (to_pong (2 * n) ∷ []) [] ev)
          ≡ ok t
        → Scene rest t
    unfolding pings
    pong_plays others n ev zero t count room e =
        absurd (ground (arith, e, (run_task-pong_short rest others d (2 * n) [] ev).1 room))
    pong_plays others n ev (suc fuel) t count room e =
        subst (Scene rest)
          (ok-injective (sym (run_task-pong rest others d fuel (2 * n) [] ev room) ∙ e))
          (ping_turn others false false n _ (omega (arith, count)) (ground (arith, room)))

    ping_plays :
        (others : ActorPtr → BaseActor) (n : ℕ) (ev : List (Event Ball)) (fuel : ℕ)
        (t : Context Ball)
        → pings ev ≡ n
        → ltb (2 * n + 1) int_max ≡ true
        → run_task
            (game d)
            (suc fuel)
            (ping_task rest)
            (game_at rest others true false (to_ping (2 * n + 1) ∷ []) [] [] ev)
          ≡ ok t
        → Scene rest t
    unfolding pings
    ping_plays others n ev zero t count room e =
        absurd (ground (arith, e, (run_task-ping_short rest others d (2 * n + 1) [] ev).1 room))
    ping_plays others n ev (suc fuel) t count room e =
        let played =
          on_child_status usr_actor ping_address normal
          ∷ action_handle ping_actor (to_ping (2 * n + 1))
          ∷ ev in
        let higher : 2 * (n + 1) ≡ 2 * n + 1 + 1 = omega arith in
        subst (Scene rest)
          (ap (λ v. game_at rest others false false [] (to_pong v ∷ []) [] played) higher
            ∙ ok-injective (sym (run_task-ping rest others d fuel (2 * n + 1) [] ev room) ∙ e))
          (pong_turn others false false (n + 1) played (omega (arith, count))
            (ground (arith, room)))

    pong_turn-runs :
        (others : ActorPtr → BaseActor) (late busy : Bool) (n : ℕ) (ev : List (Event Ball))
        (fuel : ℕ) (t : Context Ball)
        → pings ev ≡ n
        → 2 * n ≤ int_max
        → runs_first fuel
            (game_at rest others false busy [] (to_pong (2 * n) ∷ []) [] ev)
            (waiting late busy (pong_task rest))
          ≡ ok t
        → Scene rest t
    unfolding runs_first pings
    pong_turn-runs others true busy n ev fuel t count fits e =
        subst (Scene rest)
          (ok-injective (
            sym (
              run_task-others d fuel pong_actor
                (game_at rest others false busy [] (to_pong (2 * n) ∷ [])
                  (waiting false busy (pong_task rest)) ev)
                refl)
            ∙ e))
          (pong_turn others false busy n (on_start pong_actor ∷ ev) count fits)
    pong_turn-runs others false false n ev fuel t count fits e = absurd (ground arith)
    pong_turn-runs others false true n ev zero t count fits e =
        absurd (ground (arith, e, (run_task-pong_short rest others d (2 * n) [] ev).0))
    pong_turn-runs others false true n ev (suc fuel) t count fits e =
        elim (Bool-cases (ltb (2 * n) int_max)) [
          | inl room ↦ pong_plays others n ev fuel t count room e
          | inr over ↦
              absurd (ground (arith, e, run_task-pong_over rest others d fuel (2 * n) [] ev over))
        ]

    ping_turn-runs :
        (others : ActorPtr → BaseActor) (late busy : Bool) (n : ℕ) (ev : List (Event Ball))
        (fuel : ℕ) (t : Context Ball)
        → pings ev ≡ n
        → 2 * n + 1 ≤ int_max
        → runs_first fuel
            (game_at rest others busy false (to_ping (2 * n + 1) ∷ []) [] [] ev)
            (waiting late busy (ping_task rest))
          ≡ ok t
        → Scene rest t
    unfolding runs_first pings
    ping_turn-runs others true busy n ev fuel t count fits e =
        subst (Scene rest)
          (ok-injective (
            sym (
              run_task-others d fuel pong_actor
                (game_at rest others busy false (to_ping (2 * n + 1) ∷ []) []
                  (waiting false busy (ping_task rest)) ev)
                refl)
            ∙ e))
          (ping_turn others false busy n (on_start pong_actor ∷ ev) count fits)
    ping_turn-runs others false false n ev fuel t count fits e = absurd (ground arith)
    ping_turn-runs others false true n ev zero t count fits e =
        absurd (ground (arith, e, (run_task-ping_short rest others d (2 * n + 1) [] ev).0))
    ping_turn-runs others false true n ev (suc fuel) t count fits e =
        elim (Bool-cases (ltb (2 * n + 1) int_max)) [
          | inl room ↦ ping_plays others n ev fuel t count room e
          | inr over ↦
              absurd
                (ground (arith, e, run_task-ping_over rest others d fuel (2 * n + 1) [] ev over))
        ]

    pub runs-Scene :
        (fuel : ℕ) (k : UserTask) (ks : List UserTask) (s t : Context Ball)
        → s.posted ≡ k ∷ ks
        → run_task (game d) fuel k (record s { posted = ks }) ≡ ok t
        → Scene rest s
        → Scene rest t
    unfolding runs_first
    runs-Scene fuel k ks s t waits e (opens others ks' ev first none_yet) =
        opens-runs others ks' ev fuel t first none_yet (ap (runs_first fuel s) waits ∙ e)
    runs-Scene fuel k ks s t waits e (pong_turn others late busy n ev count fits) =
        pong_turn-runs others late busy n ev fuel t count fits (ap (runs_first fuel s) waits ∙ e)
    runs-Scene fuel k ks s t waits e (ping_turn others late busy n ev count fits) =
        ping_turn-runs others late busy n ev fuel t count fits (ap (runs_first fuel s) waits ∙ e)
