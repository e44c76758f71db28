-- ===== src/Examples/PingPong/Strokes/Tasks.antt =====
-- examples/ping_pong_example.cpp: what a player's task does.
use yaaf.Common.{
  ltb, ℕ, suc, ◌+◌, ◌≡◌, ◌∙◌, refl, Bool, true, false, List, [], ◌∷◌, Str, lookup, nat_eq, fun_ext,
  arith,
}
use yaaf.Common.Outcomes.{ok, null_deref, out_of_fuel}
use yaaf.Payload.Typed.{cast}
use yaaf.Mailbox.{mailbox_empty, push, try_pop}
use yaaf.Actor.{BaseActor, normal}
use yaaf.Actor.Apply.{apply}
use yaaf.Context.State.{Context, ActorPtr, UserTask, Event, action_handle, on_child_status, update}
use yaaf.Context.Send.{send_envelope}
use yaaf.Context.Supervision.{run_task, context_host, act}
use yaaf.Context.User.{run_method}
use yaaf.Examples.PingPong.{
  Ball, int_max, game, ping_actor, pong_actor, usr_actor, ping_action_handle, pong_action_handle,
}
use yaaf.Examples.PingPong.Court.{
  court_objects, court_boxes, court_objects-ping, court_objects-pong, ping_address, pong_address,
  ping_object, pong_object,
}
use yaaf.Examples.PingPong.Strokes.{to_pong, to_ping, pong_task, ping_task, redrawn, game_at}

module _ (rest : Str) (others : ActorPtr → BaseActor) where
  -- What the players' tasks leave in the mailboxes.
  pong_boxes :
      (v : ℕ)
      → update
          (update
            (update (court_boxes [] (to_pong v ∷ [])) 4 (record { dqueue = [] }))
            3
            (record { dqueue = to_ping (v + 1) ∷ [] }))
          4
          (record { dqueue = [] })
        ≡ court_boxes (to_ping (v + 1) ∷ []) []
  pong_boxes v = fun_ext (λ b. ground arith)

  ping_boxes :
      (v : ℕ)
      → update
          (update
            (update (court_boxes (to_ping v ∷ []) []) 3 (record { dqueue = [] }))
            4
            (record { dqueue = to_pong (v + 1) ∷ [] }))
          3
          (record { dqueue = [] })
        ≡ court_boxes [] (to_pong (v + 1) ∷ [])
  ping_boxes v = fun_ext (λ b. ground arith)

  -- The pong actor's task: the ball comes back, one higher.
  pub run_task-pong :
      (d : Bool) (fuel v : ℕ) (ks : List UserTask) (ev : List (Event Ball))
      → ltb v int_max ≡ true
      → run_task
          (game d)
          (suc (suc fuel))
          (pong_task rest)
          (game_at rest others false true [] (to_pong v ∷ []) ks ev)
        ≡ ok (
            game_at rest others false false (to_ping (v + 1) ∷ []) [] ks (
              on_child_status ping_actor pong_address normal
              ∷ action_handle pong_actor (to_pong v)
              ∷ ev))
  unfolding run_task apply context_host mailbox_empty try_pop act run_method send_envelope push
      lookup pong_action_handle cast
  run_task-pong d fuel v ks ev room = played d ∙ λ i. ok (
      redrawn rest others after (court_objects-pong rest others false true false i)
        (pong_boxes v i))
    where
      after : Context Ball
      after = game_at rest others false false [] [] ks (
          on_child_status ping_actor pong_address normal
          ∷ action_handle pong_actor (to_pong v)
          ∷ ev)

      played :
          (d : Bool)
          → run_task
              (game d)
              (suc (suc fuel))
              (pong_task rest)
              (game_at rest others false true [] (to_pong v ∷ []) ks ev)
            ≡ ok (
                redrawn rest others after
                  (update
                    (court_objects rest others false true)
                    pong_actor
                    (pong_object rest false))
                  (update
                    (update
                      (update (court_boxes [] (to_pong v ∷ [])) 4 (record { dqueue = [] }))
                      3
                      (record { dqueue = to_ping (v + 1) ∷ [] }))
                    4
                    (record { dqueue = [] })))
      played true = rw room refl
      played false = rw room refl

  -- The ping actor's task, likewise.
  pub run_task-ping :
      (d : Bool) (fuel v : ℕ) (ks : List UserTask) (ev : List (Event Ball))
      → ltb v int_max ≡ true
      → run_task
          (game d)
          (suc (suc fuel))
          (ping_task rest)
          (game_at rest others true false (to_ping v ∷ []) [] ks ev)
        ≡ ok (
            game_at rest others false false [] (to_pong (v + 1) ∷ []) ks (
              on_child_status usr_actor ping_address normal
              ∷ action_handle ping_actor (to_ping v)
              ∷ ev))
  unfolding run_task apply context_host mailbox_empty try_pop act run_method send_envelope push
      lookup ping_action_handle cast
  run_task-ping d fuel v ks ev room = played d ∙ λ i. ok (
      redrawn rest others after (court_objects-ping rest others true false false i)
        (ping_boxes v i))
    where
      after : Context Ball
      after = game_at rest others false false [] [] ks (
          on_child_status usr_actor ping_address normal ∷ action_handle ping_actor (to_ping v) ∷ ev)

      played :
          (d : Bool)
          → run_task
              (game d)
              (suc (suc fuel))
              (ping_task rest)
              (game_at rest others true false (to_ping v ∷ []) [] ks ev)
            ≡ ok (
                redrawn rest others after
                  (update
                    (court_objects rest others true false)
                    ping_actor
                    (ping_object rest false))
                  (update
                    (update
                      (update (court_boxes (to_ping v ∷ []) []) 3 (record { dqueue = [] }))
                      4
                      (record { dqueue = to_pong (v + 1) ∷ [] }))
                    3
                    (record { dqueue = [] })))
      played true = rw room refl
      played false = rw room refl

  -- The highest number is not sent back: it would overflow.
  pub run_task-pong_over :
      (d : Bool) (fuel v : ℕ) (ks : List UserTask) (ev : List (Event Ball))
      → ltb v int_max ≡ false
      → run_task
          (game d)
          (suc fuel)
          (pong_task rest)
          (game_at rest others false true [] (to_pong v ∷ []) ks ev)
        ≡ null_deref
  unfolding run_task apply context_host mailbox_empty try_pop act run_method pong_action_handle cast
  run_task-pong_over true fuel v ks ev over = rw over refl
  run_task-pong_over false fuel v ks ev over = rw over refl

  pub run_task-ping_over :
      (d : Bool) (fuel v : ℕ) (ks : List UserTask) (ev : List (Event Ball))
      → ltb v int_max ≡ false
      → run_task
          (game d)
          (suc fuel)
          (ping_task rest)
          (game_at rest others true false (to_ping v ∷ []) [] ks ev)
        ≡ null_deref
  unfolding run_task apply context_host mailbox_empty try_pop act run_method ping_action_handle cast
  run_task-ping_over true fuel v ks ev over = rw over refl
  run_task-ping_over false fuel v ks ev over = rw over refl

  -- With less fuel a task does not come to its end.
  pub run_task-pong_short :
      (d : Bool) (v : ℕ) (ks : List UserTask) (ev : List (Event Ball))
      → (run_task
            (game d)
            0
            (pong_task rest)
            (game_at rest others false true [] (to_pong v ∷ []) ks ev)
          ≡ out_of_fuel)
        × (ltb v int_max ≡ true
            → run_task
                (game d)
                1
                (pong_task rest)
                (game_at rest others false true [] (to_pong v ∷ []) ks ev)
              ≡ out_of_fuel)
  unfolding run_task apply context_host mailbox_empty try_pop act run_method send_envelope push
      lookup pong_action_handle cast
  run_task-pong_short true v ks ev = (refl, λ room. rw room refl)
  run_task-pong_short false v ks ev = (refl, λ room. rw room refl)

  pub run_task-ping_short :
      (d : Bool) (v : ℕ) (ks : List UserTask) (ev : List (Event Ball))
      → (run_task
            (game d)
            0
            (ping_task rest)
            (game_at rest others true false (to_ping v ∷ []) [] ks ev)
          ≡ out_of_fuel)
        × (ltb v int_max ≡ true
            → run_task
                (game d)
                1
                (ping_task rest)
                (game_at rest others true false (to_ping v ∷ []) [] ks ev)
              ≡ out_of_fuel)
  unfolding run_task apply context_host mailbox_empty try_pop act run_method send_envelope push
      lookup ping_action_handle cast
  run_task-ping_short true v ks ev = (refl, λ room. rw room refl)
  run_task-ping_short false v ks ev = (refl, λ room. rw room refl)
