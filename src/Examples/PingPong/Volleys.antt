-- ===== src/Examples/PingPong/Volleys.antt =====
-- examples/ping_pong_example.cpp: the game goes on.
use yaaf.Common.{
  ℕ, zero, suc, ◌+◌, ◌*◌, ◌≤◌, ◌<◌, ◌≡◌, refl, ap, subst, ◌∙◌, Bool, false, List, [], ◌∷◌, arith,
  Str,
}
use yaaf.Common.Outcomes.{Outcome, ok, ◌>>=◌}
use yaaf.Context.State.{Context, ActorPtr, Event, action_handle, on_child_status}
use yaaf.Context.Worker.Bare.{mailbox_worker_lem}
use yaaf.Actor.{BaseActor, normal}
use yaaf.Examples.PingPong.{
  Ball, int_max, pings, ping_actor, pong_actor, usr_actor, all_locks, run_first, serve_first,
  volley, volleys,
}
use yaaf.Examples.PingPong.Court.{ping_address}
use yaaf.Examples.PingPong.Opening.{
  main-opening, run_task-others, run_task-ping_on_start, spectators, name_rest,
}
use yaaf.Examples.PingPong.Strokes.{to_pong, to_ping, game_at, scan-pong, scan-ping}
use yaaf.Examples.PingPong.Strokes.Tasks.{run_task-pong, run_task-ping}
use yaaf.Examples.PingPong.Score.{IsRally, pong_turn-IsRally, ping_turn-IsRally}

module _ (rest : Str) where
  -- Nothing is posted, and the number `k` is the next.
  data Resting (k : ℕ) : Context Ball → Type 0 where
    pong_next :
        (others : ActorPtr → BaseActor) (n : ℕ) (ev : List (Event Ball))
        → 2 * n ≡ k
        → pings ev ≡ n
        → Resting k (game_at rest others false false [] (to_pong (2 * n) ∷ []) [] ev)
    ping_next :
        (others : ActorPtr → BaseActor) (n : ℕ) (ev : List (Event Ball))
        → 2 * n + 1 ≡ k
        → pings ev ≡ n
        → Resting k (game_at rest others false false (to_ping (2 * n + 1) ∷ []) [] [] ev)

  module _ (d : Bool) where
    volley-Resting :
        (k : ℕ) (s : Context Ball)
        → Resting k s
        → k < int_max
        → (t : Context Ball) × (volley d s ≡ ok t) × Resting (suc k) t
    unfolding volley pings
    volley-Resting k s (pong_next others n ev is count) room = (
      _,
      ap (λ (m : Outcome (Context Ball)). m >>= λ t. run_first d 2 t)
            (mailbox_worker_lem all_locks s _ refl refl (scan-pong rest others (2 * n) [] ev))
          ∙ run_task-pong rest others d 0 (2 * n) [] ev (ground (arith, is, room)),
      ping_next others n _ (omega (arith, is)) (omega (arith, count)),
    )
    volley-Resting k s (ping_next others n ev is count) room =
        let played =
          on_child_status usr_actor ping_address normal
          ∷ action_handle ping_actor (to_ping (2 * n + 1))
          ∷ ev in
        let higher : 2 * n + 1 + 1 ≡ 2 * (n + 1) = omega arith in
        (
          _,
          ap (λ (m : Outcome (Context Ball)). m >>= λ t. run_first d 2 t)
                (mailbox_worker_lem all_locks s _ refl refl
                  (scan-ping rest others (2 * n + 1) [] ev))
              ∙ run_task-ping rest others d 0 (2 * n + 1) [] ev (ground (arith, is, room))
              ∙ ap (λ v. ok (game_at rest others false false [] (to_pong v ∷ []) [] played)) higher,
          pong_next others (n + 1) played (omega (arith, is)) (omega (arith, count)),
        )

    volleys-Resting :
        (n k : ℕ) (s : Context Ball)
        → Resting k s
        → n + k ≤ int_max
        → (t : Context Ball) × (volleys d n s ≡ ok t) × Resting (n + k) t
    unfolding volleys
    volleys-Resting zero k s r room = (s, refl, subst (λ j. Resting j s) (omega arith) r)
    volleys-Resting (suc n) k s r room =
        let (u, first, next) = volley-Resting k s r (omega (arith, room)) in
        let (t, others, after) = volleys-Resting n (suc k) u next (omega (arith, room)) in
        (
          t,
          ap (λ (m : Outcome (Context Ball)). m >>= volleys d n) first ∙ others,
          subst (λ j. Resting j t) (omega arith) after,
        )

  Resting-IsRally : (k : ℕ) (s : Context Ball) → Resting k s → k ≤ int_max → IsRally k s
  Resting-IsRally k s (pong_next others n ev is count) fits =
      subst (λ j. IsRally j s) is
        (pong_turn-IsRally rest others false false n ev count (omega (arith, is, fits)))
  Resting-IsRally k s (ping_next others n ev is count) fits =
      subst (λ j. IsRally j s) is
        (ping_turn-IsRally rest others false false n ev count (omega (arith, is, fits)))

module _ (d : Bool) (self_id : ℕ) where
  abbrev rest : Str
  rest = name_rest self_id

  abbrev others : ActorPtr → BaseActor
  others = spectators rest

  -- The next task, where what it does is known.
  serve_first-Resting : (s : Context Ball) × (serve_first d self_id ≡ ok s) × Resting rest 0 s
  unfolding serve_first run_first pings
  serve_first-Resting =
      let next = λ (m : Outcome (Context Ball)). m >>= λ t. run_first d 2 t in
      (
        _,
        ap (λ m. next (next (next (next (next m))))) (main-opening self_id d)
            ∙ ap (λ m. next (next (next (next m)))) (run_task-others d 2 0 _ refl)
            ∙ ap (λ m. next (next (next m))) (run_task-others d 2 1 _ refl)
            ∙ ap (λ m. next (next m)) (run_task-others d 2 2 _ refl)
            ∙ ap (λ m. next m) (run_task-ping_on_start d 2 rest others [] _)
            ∙ run_task-others d 2 pong_actor _ refl,
        pong_next others 0 _ refl refl,
      )

-- With free locks, after `main` and the five `on_start`s, `n` rounds of the worker, each followed by the
-- first waiting task, succeed, and the number `n` is the only mail of the players then, if it
-- fits an `int`.
pub volleys-IsRally :
    (double_checks : Bool) (self_id n : ℕ)
    → n ≤ int_max
    → (s : Context Ball) × ((serve_first double_checks self_id >>= volleys double_checks n) ≡ ok s)
      × IsRally n s
volleys-IsRally double_checks self_id n room =
    let (s, served, begins) = serve_first-Resting double_checks self_id in
    let (t, played, ends) =
      volleys-Resting (name_rest self_id) double_checks n 0 s begins (omega (arith, room)) in
    (
      t,
      ap (λ (m : Outcome (Context Ball)). m >>= volleys double_checks n) served ∙ played,
      Resting-IsRally (name_rest self_id) n t
          (subst (λ j. Resting (name_rest self_id) j t) (omega arith) ends) room,
    )
