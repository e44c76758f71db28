-- ===== src/Examples/PingPong/Opening.antt =====
-- examples/ping_pong_example.cpp: `main`, and the actors' `on_start`.
use yaaf.Common.{
  ℕ, ◌≡◌, refl, ap, ◌∙◌, Bool, true, false, Option, none, some, List, [], ◌∷◌, ◌++◌, Str, lookup,
  insert, adjust, contains, fun_ext, arith, Option-cases, inl, inr, ◌==◌, nat_eq, if◌then◌else◌,
}
use yaaf.Common.Outcomes.{Outcome, ok, thrown, ◌>>=◌}
use yaaf.Context.State.{
  Context, UserTask, ActorPtr, BoxPtr, Event, Method, start_actor, new_context, on_init, on_start,
  update, returns,
}
use yaaf.Mailbox.{Mailbox, no_mail, push}
use yaaf.Actor.{BaseActor, base_actor}
use yaaf.Address.{no_address}
use yaaf.Context.Add.{add_actor, to_string}
use yaaf.Context.Send.{send_envelope}
use yaaf.Context.Lifecycle.{start, make_context}
use yaaf.Context.Supervision.{run_task, act}
use yaaf.Context.User.{run_method, run_alone}
use yaaf.Examples.PingPong.{
  game, main, Ball, root_actor, usr_actor, sys_actor, ping_actor, pong_actor, ping_name,
  ping_on_start,
}
use yaaf.Examples.PingPong.Court.{
  opening, court, court_boxes, opening_objects, opening_objects-pong, ping_object, pong_object,
  player, at, sys_path, usr_path, root_path,
}
use yaaf.Examples.PingPong.Strokes.{to_pong}

-- The objects that do not play, as `main` leaves them.
pub spectators : (rest : Str) → ActorPtr → BaseActor
spectators rest a =
    if a == sys_actor
    then player rest (at 3 sys_path) (b'3' ∷ []) false
    else if a == usr_actor
    then player rest (at 2 usr_path) (b'2' ∷ []) false
    else if a == root_actor
    then player rest (at 1 root_path) (b'1' ∷ []) false
    else base_actor

abbrev cast_of : Str → ActorPtr → BaseActor
cast_of rest =
    update
      (update
        (update
          (update (λ a. base_actor) root_actor (player rest (at 1 root_path) (b'1' ∷ []) false))
          usr_actor (player rest (at 2 usr_path) (b'2' ∷ []) false))
        sys_actor (player rest (at 3 sys_path) (b'3' ∷ []) false))
      ping_actor (ping_object rest false)

cast_of-opening_objects : (rest : Str) → cast_of rest ≡ opening_objects rest (spectators rest)
unfolding spectators
cast_of-opening_objects rest = fun_ext (λ a. ground arith)

abbrev new_boxes : BoxPtr → Mailbox Ball
new_boxes = update (update (update (update (λ b. no_mail) 0 no_mail) 1 no_mail) 2 no_mail) 3 no_mail

new_boxes-no_mail : new_boxes ≡ (λ b. no_mail)
new_boxes-no_mail = fun_ext (λ b. ground arith)

abbrev pub posted_first : List UserTask
posted_first = start_actor 0 ∷ start_actor 1 ∷ start_actor 2 ∷ start_actor 3 ∷ []

abbrev opened : Bool → Str → Outcome (Context Ball)
opened d rest = start (game d) root_actor usr_actor sys_actor (new_context (b's' ∷ rest)) >>= λ s.
    add_actor (game d) ping_name no_address ping_actor s >>= λ (addr, t). ok t

-- What `main` makes.
opened-opening :
    (d : Bool) (rest : Str)
    → opened d rest
      ≡ ok (
          opening rest
            (spectators rest)
            posted_first
            (on_init 3 ∷ on_init 2 ∷ on_init 1 ∷ on_init 0 ∷ []))
unfolding start add_actor lookup insert adjust contains
opened-opening d rest =
    made d ∙ λ i. ok (drawn (cast_of-opening_objects rest i) (new_boxes-no_mail i))
  where
    drawn : (ActorPtr → BaseActor) → (BoxPtr → Mailbox Ball) → Context Ball
    drawn f g =
        record (opening rest (spectators rest) posted_first
          (on_init 3 ∷ on_init 2 ∷ on_init 1 ∷ on_init 0 ∷ [])) { objects = f; boxes = g }

    made : (d : Bool) → opened d rest ≡ ok (drawn (cast_of rest) new_boxes)
    made true = refl
    made false = refl

act-returns : (d : Bool) (a : ActorPtr) (s : Context Ball) → act (game d) a returns s ≡ ok (s, none)
unfolding act run_method run_alone
act-returns d a s = elim (Option-cases (s.objects a).ctx) [
  | inl gone ↦ ground (arith, gone)
  | inr (uc, there) ↦ ground (arith, there)
]

-- `on_start` of the other actors does nothing.
pub run_task-others :
    (d : Bool) (fuel : ℕ) (a : ActorPtr) (s : Context Ball)
    → (a == ping_actor) ≡ false
    → run_task (game d) fuel (start_actor a) s ≡ ok (record s { events = on_start a ∷ s.events })
unfolding run_task
run_task-others d fuel a s other =
    ap (λ (m : Method Ball). act (game d) a m begun >>= after) idle
    ∙ ap (λ r. r >>= after) (act-returns d a begun)
  where
    begun : Context Ball
    begun = record s { events = on_start a ∷ s.events }

    after : Context Ball × Option Str → Outcome (Context Ball)
    after (s', ex) = elim ex as (λ x. Outcome (Context Ball)) [
      | none ↦ ok s'
      | some what ↦ thrown what
    ]

    idle : (game d).starts a s.events ≡ returns
    idle = rw other refl

-- The ping actor makes its partner and sends it the number 0.
pub run_task-ping_on_start :
    (d : Bool) (fuel : ℕ) (rest : Str) (others : ActorPtr → BaseActor) (ks : List UserTask)
    (ev : List (Event Ball))
    → run_task (game d) fuel (start_actor ping_actor) (opening rest others ks ev)
      ≡ ok (
          court rest others false false []
            (to_pong 0 ∷ [])
            (ks ++ start_actor pong_actor ∷ [])
            (on_init pong_actor ∷ on_start ping_actor ∷ ev))
unfolding run_task act run_method add_actor send_envelope push ping_on_start lookup insert adjust
    contains
run_task-ping_on_start d fuel rest others ks ev =
    served d ∙ λ i. ok (drawn (opening_objects-pong rest others i) (served_boxes i))
  where
    drawn : (ActorPtr → BaseActor) → (BoxPtr → Mailbox Ball) → Context Ball
    drawn f g =
        record (court rest others false false [] [] (ks ++ start_actor pong_actor ∷ [])
          (on_init pong_actor ∷ on_start ping_actor ∷ ev)) { objects = f; boxes = g }

    served :
        (d : Bool)
        → run_task (game d) fuel (start_actor ping_actor) (opening rest others ks ev)
          ≡ ok (
              drawn
                (update (opening_objects rest others) pong_actor (pong_object rest false))
                (update (update (λ b. no_mail) 4 no_mail) 4 (record { dqueue = to_pong 0 ∷ [] })))
    served true = refl
    served false = refl

    served_boxes :
        update (update (λ b. no_mail) 4 no_mail) 4 (record { dqueue = to_pong 0 ∷ [] })
        ≡ court_boxes [] (to_pong 0 ∷ [])
    served_boxes = fun_ext (λ b. ground arith)

module _ (self_id : ℕ) where
  -- The context's name is "system_" and its number; what follows the "s":
  abbrev pub name_rest : Str
  name_rest = b'y' ∷ b's' ∷ b't' ∷ b'e' ∷ b'm' ∷ b'_' ∷ to_string self_id

  pub main-opening :
      (d : Bool)
      → main d self_id
        ≡ ok (
            opening name_rest
              (spectators name_rest)
              posted_first
              (on_init 3 ∷ on_init 2 ∷ on_init 1 ∷ on_init 0 ∷ []))
  unfolding main make_context
  main-opening d = opened-opening d name_rest
