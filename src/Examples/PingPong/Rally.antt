-- ===== src/Examples/PingPong/Rally.antt =====
-- examples/ping_pong_example.cpp: the states that the game goes through.
pub mod Running
use yaaf.Common.{
  ℕ, zero, suc, ◌+◌, ◌*◌, ◌/◌, ◌%◌, ◌≤◌, ◌≡◌, ◌⊎◌, refl, sym, ap, subst, ◌∙◌, Bool, true, false,
  if◌then◌else◌, Option, none, some, List, [], ◌∷◌, ◌++◌, Str, arith, inl, inr, nat_eq, ◌==◌,
}
use yaaf.Common.Outcomes.{Outcome, ok, out_of_fuel, ok-injective}
use yaaf.Payload.{Envelope}
use yaaf.Mailbox.{mailbox_empty}
use yaaf.Context.State.{
  Context, ActorPtr, UserTask, Event, start_actor, on_start, on_init, on_child_status,
  action_handle,
}
use yaaf.Context.Worker.{scan, LockAnswers, mailbox_worker}
use yaaf.Context.Worker.Exclusive.{quiet}
use yaaf.Context.Worker.Bare.{mailbox_worker_cases}
use yaaf.Context.Supervision.{run_task}
use yaaf.Actor.{BaseActor, normal}
use yaaf.Actor.Apply.{apply}
use yaaf.Examples.PingPong.{
  Ball, int_max, game, pings, ping_actor, pong_actor, usr_actor, main, Play, began, works, runs,
}
use yaaf.Examples.PingPong.Court.{opening, court, ping_address}
use yaaf.Examples.PingPong.Opening.{
  main-opening, run_task-others, run_task-ping_on_start, spectators, name_rest, posted_first,
}
use yaaf.Examples.PingPong.Strokes.{
  to_pong, to_ping, pong_task, ping_task, scan-pong, scan-ping, scan-pong_busy, scan-ping_busy,
  game_at,
}

-- The `on_start` tasks that are left, that of the ping actor last.
pub data IsFirst : List UserTask → Type 0 where
  last : IsFirst (start_actor ping_actor ∷ [])
  more :
      (a : ActorPtr) {ks : List UserTask}
      → (a == ping_actor) ≡ false
      → IsFirst ks
      → IsFirst (start_actor a ∷ ks)

-- The tasks that wait when both players are there: whether the pong actor's `on_start` is among them,
-- and whether a player's task `k` is.
abbrev pub waiting : Bool → Bool → UserTask → List UserTask
waiting late busy k =
    (if late then start_actor pong_actor ∷ [] else []) ++ (if busy then k ∷ [] else [])

-- A task that is posted waits behind the others.
waiting-append : (late : Bool) (k : UserTask) → waiting late false k ++ k ∷ [] ≡ waiting late true k
waiting-append true k = refl
waiting-append false k = refl

module _ (rest : Str) where
  pub data Scene : Context Ball → Type 0 where
    opens :
        (others : ActorPtr → BaseActor) (ks : List UserTask) (ev : List (Event Ball))
        → IsFirst ks
        → pings ev ≡ 0
        → Scene (opening rest others ks ev)
    pong_turn :
        (others : ActorPtr → BaseActor) (late busy : Bool) (n : ℕ) (ev : List (Event Ball))
        → pings ev ≡ n
        → 2 * n ≤ int_max
        → Scene (
            game_at rest others false busy []
              (to_pong (2 * n) ∷ [])
              (waiting late busy (pong_task rest))
              ev)
    ping_turn :
        (others : ActorPtr → BaseActor) (late busy : Bool) (n : ℕ) (ev : List (Event Ball))
        → pings ev ≡ n
        → 2 * n + 1 ≤ int_max
        → Scene (
            game_at rest others busy false
              (to_ping (2 * n + 1) ∷ [])
              []
              (waiting late busy (ping_task rest))
              ev)

  scan-opening :
      (others : ActorPtr → BaseActor) (ks : List UserTask) (ev : List (Event Ball))
      → scan quiet (opening rest others ks ev).mboxes (opening rest others ks ev, [])
        ≡ ok (opening rest others ks ev, [])
  unfolding scan mailbox_empty
  scan-opening others ks ev = refl

  pub works-Scene :
      (l : LockAnswers) (s t : Context Ball) → Scene s → mailbox_worker l quiet s ≡ ok t → Scene t
  works-Scene l s t (opens others ks ev first none_yet) e =
      elim (mailbox_worker_cases l s s refl refl (scan-opening others ks ev) e) [
        | inl same ↦ subst Scene same (opens others ks ev first none_yet)
        | inr same ↦ subst Scene same (opens others ks ev first none_yet)
      ]
  works-Scene l s t (pong_turn others late true n ev count fits) e =
      let here = pong_turn others late true n ev count fits in
      elim (mailbox_worker_cases l s s refl refl
        (scan-pong_busy rest others (2 * n) (waiting late true (pong_task rest)) ev) e) [
          | inl same ↦ subst Scene same here
          | inr same ↦ subst Scene same here
        ]
  works-Scene l s t (pong_turn others late false n ev count fits) e =
      elim (mailbox_worker_cases l s _ refl refl
        (scan-pong rest others (2 * n) (waiting late false (pong_task rest)) ev) e) [
          | inl same ↦ subst Scene same (pong_turn others late false n ev count fits)
          | inr same ↦
              subst Scene
                (ap (λ ks. game_at rest others false true [] (to_pong (2 * n) ∷ []) ks ev)
                    (sym (waiting-append late (pong_task rest)))
                  ∙ same)
                (pong_turn others late true n ev count fits)
        ]
  works-Scene l s t (ping_turn others late true n ev count fits) e =
      let here = ping_turn others late true n ev count fits in
      elim (mailbox_worker_cases l s s refl refl
        (scan-ping_busy rest others (2 * n + 1) (waiting late true (ping_task rest)) ev) e) [
          | inl same ↦ subst Scene same here
          | inr same ↦ subst Scene same here
        ]
  works-Scene l s t (ping_turn others late false n ev count fits) e =
      elim (mailbox_worker_cases l s _ refl refl
        (scan-ping rest others (2 * n + 1) (waiting late false (ping_task rest)) ev) e) [
          | inl same ↦ subst Scene same (ping_turn others late false n ev count fits)
          | inr same ↦
              subst Scene
                (ap (λ ks. game_at rest others true false (to_ping (2 * n + 1) ∷ []) [] ks ev)
                    (sym (waiting-append late (ping_task rest)))
                  ∙ same)
                (ping_turn others late true n ev count fits)
        ]
