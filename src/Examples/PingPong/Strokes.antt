-- ===== src/Examples/PingPong/Strokes.antt =====
-- examples/ping_pong_example.cpp: what the worker's look at the mailboxes and one task do to the game.
pub mod Tasks
use yaaf.Common.{
  ℕ, suc, ◌+◌, ◌≡◌, ◌∙◌, refl, Bool, true, false, ◌&&◌, Option, none, some, List, [], ◌∷◌, ◌++◌,
  Str, lookup, nat_eq, fun_ext, arith,
}
use yaaf.Common.Outcomes.{Outcome, ok, out_of_fuel}
use yaaf.Address.{IdT, Address}
use yaaf.Payload.{Envelope}
use yaaf.Payload.Typed.{cast}
use yaaf.Mailbox.{Mailbox, mailbox_empty, push, try_pop}
use yaaf.Actor.{BaseActor, normal}
use yaaf.Actor.Apply.{apply}
use yaaf.Context.State.{
  Context, ActorPtr, BoxPtr, UserTask, Event, apply_mail, action_handle, on_child_status, update,
}
use yaaf.Context.Send.{send_envelope}
use yaaf.Context.Worker.{scan}
use yaaf.Context.Worker.Exclusive.{quiet}
use yaaf.Context.Supervision.{run_task, context_host, act}
use yaaf.Context.User.{run_method}
use yaaf.Examples.PingPong.{
  Ball, ball, game, ping_actor, pong_actor, usr_actor, ping_action_handle, pong_action_handle,
}
use yaaf.Examples.PingPong.Court.{
  court, court_objects, court_boxes, court_objects-ping, court_objects-pong, court_boxes-ping,
  court_boxes-pong, ping_description, pong_description, ping_address, pong_address, ping_object,
  pong_object,
}

-- The number `v` on its way to a player.
abbrev pub to_pong : ℕ → Envelope Ball
to_pong v = record { payload = ball v; sender = ping_address }

abbrev pub to_ping : ℕ → Envelope Ball
to_ping v = record { payload = ball v; sender = pong_address }

-- The players' tasks.
abbrev pub pong_task : Str → UserTask
pong_task rest = apply_mail (pong_description rest) (some ping_actor) 4

abbrev pub ping_task : Str → UserTask
ping_task rest = apply_mail (ping_description rest (5 ∷ [])) (some usr_actor) 3

-- The mailboxes, in the order in which the worker looks at them.
abbrev pub all_boxes : List (IdT × BoxPtr)
all_boxes = (1, 0) ∷ (2, 1) ∷ (3, 2) ∷ (4, 3) ∷ (5, 4) ∷ []

module _ (rest : Str) (others : ActorPtr → BaseActor) where
  -- The game with other objects and mailboxes.
  abbrev pub redrawn :
      Context Ball → (ActorPtr → BaseActor) → (BoxPtr → Mailbox Ball) → Context Ball
  redrawn s f g = record s { objects = f; boxes = g }

  abbrev pub game_at :
      Bool
      → Bool
      → List (Envelope Ball)
      → List (Envelope Ball)
      → List UserTask
      → List (Event Ball)
      → Context Ball
  game_at a b p q ks ev = court rest others a b p q ks ev

  pub scan-pong :
      (v : ℕ) (ks : List UserTask) (ev : List (Event Ball))
      → scan quiet all_boxes (game_at false false [] (to_pong v ∷ []) ks ev, [])
        ≡ ok (game_at false true [] (to_pong v ∷ []) (ks ++ (pong_task rest) ∷ []) ev, [])
  unfolding scan mailbox_empty lookup
  scan-pong v ks ev i = ok (
    redrawn (game_at false true [] (to_pong v ∷ []) (ks ++ (pong_task rest) ∷ []) ev)
        (court_objects-pong rest others false false true i)
        (court_boxes-pong [] (to_pong v ∷ []) (to_pong v ∷ []) i),
    [],
  )

  pub scan-ping :
      (v : ℕ) (ks : List UserTask) (ev : List (Event Ball))
      → scan quiet all_boxes (game_at false false (to_ping v ∷ []) [] ks ev, [])
        ≡ ok (game_at true false (to_ping v ∷ []) [] (ks ++ (ping_task rest) ∷ []) ev, [])
  unfolding scan mailbox_empty lookup
  scan-ping v ks ev i = ok (
    redrawn (game_at true false (to_ping v ∷ []) [] (ks ++ (ping_task rest) ∷ []) ev)
        (court_objects-ping rest others false false true i)
        (court_boxes-ping (to_ping v ∷ []) [] (to_ping v ∷ []) i),
    [],
  )

  -- A busy player gets no second task.
  pub scan-pong_busy :
      (v : ℕ) (ks : List UserTask) (ev : List (Event Ball))
      → scan quiet all_boxes (game_at false true [] (to_pong v ∷ []) ks ev, [])
        ≡ ok (game_at false true [] (to_pong v ∷ []) ks ev, [])
  unfolding scan mailbox_empty lookup
  scan-pong_busy v ks ev i = ok (
    redrawn (game_at false true [] (to_pong v ∷ []) ks ev)
        (court_objects-pong rest others false true true i) (court_boxes [] (to_pong v ∷ [])),
    [],
  )

  pub scan-ping_busy :
      (v : ℕ) (ks : List UserTask) (ev : List (Event Ball))
      → scan quiet all_boxes (game_at true false (to_ping v ∷ []) [] ks ev, [])
        ≡ ok (game_at true false (to_ping v ∷ []) [] ks ev, [])
  unfolding scan mailbox_empty lookup
  scan-ping_busy v ks ev i = ok (
    redrawn (game_at true false (to_ping v ∷ []) [] ks ev)
        (court_objects-ping rest others true false true i) (court_boxes (to_ping v ∷ []) []),
    [],
  )
