-- ===== src/Tests/PingPong.antt =====
-- The game of ping and pong, up to the first number.
use yaaf.Common.{arith, ℕ, ◌≡◌, ◌⊎◌, true, refl, []}
use yaaf.Common.Outcomes.{ok, ◌>>=◌}
use yaaf.Context.State.{Context}
use yaaf.Examples.PingPong.{Ball, Play, began, runs, pong_actor, serve_first, volleys}
use yaaf.Examples.PingPong.Opening.{
  main-opening, run_task-others, run_task-ping_on_start, name_rest, spectators,
}
use yaaf.Examples.PingPong.Score.{IsOpening, IsRally, Play-IsRally}
use yaaf.Examples.PingPong.Volleys.{volleys-IsRally}

-- The five `on_start`s have run.
served : (s : Context Ball) × Play true 7 s
served = (
  _,
  runs 0 _ _ refl (run_task-others true 0 pong_actor _ refl) (
      runs 0 _ _ refl (run_task-ping_on_start true 0 (name_rest 7) (spectators (name_rest 7)) [] _)
        (runs 0 _ _ refl (run_task-others true 0 2 _ refl) (
          runs 0 _ _ refl (run_task-others true 0 1 _ refl)
            (runs 0 _ _ refl (run_task-others true 0 0 _ refl) (began (main-opening 7 true)))))),
)

Play-IsRally_example : IsOpening served.0 ⊎ ((n : ℕ) × IsRally n served.0)
Play-IsRally_example = Play-IsRally true 7 served.0 served.1

volleys-IsRally_example :
    (s : Context Ball) × ((serve_first true 7 >>= volleys true 9) ≡ ok s) × IsRally 9 s
volleys-IsRally_example = volleys-IsRally true 7 9 (omega arith)
