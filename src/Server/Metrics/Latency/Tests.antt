-- ===== src/Server/Metrics/Latency/Tests.antt =====
-- Two calls of recordLatency, of which the second has its first swap fail, and the theorems at this
-- schedule.
use etunl_cli.Base.{ℕ, ◌*◌, ◌+◌, ◌≤◌, ◌≡◌, ◌⊎◌, refl, true, List, [], ◌∷◌, length}
use etunl_cli.Base.Int.{ℤ, pos}
use etunl_cli.Server.Metrics.{RouteMetrics, new_metrics}
use etunl_cli.Server.Metrics.Latency.{latency_of, run, calls, in_turn}
use etunl_cli.Server.Metrics.Latency.Agreement.{AllFinished, run-in_turn}
use etunl_cli.Server.Metrics.Latency.Progress.{busy_at, NoneIdle, calls_end}

abbrev schedule : List ℕ
schedule = 0 ∷ 0 ∷ 0 ∷ 1 ∷ 1 ∷ 1 ∷ 0 ∷ 1 ∷ 1 ∷ 1 ∷ []

abbrev durations : List ℤ
durations = pos 5 ∷ pos 7 ∷ []

abbrev route : RouteMetrics
unfolding new_metrics
route = new_metrics 0 [] [] []

race_run :
    (run schedule (calls durations) (latency_of route)).1
    ≡ record { count = 2; sum_ns = 12; max_ns = 7 }
unfolding run calls latency_of route
race_run = refl

run-in_turn_example :
    (run schedule (calls durations) (latency_of route)).1 ≡ latency_of (in_turn durations route)
unfolding run calls latency_of route
run-in_turn_example = run-in_turn schedule durations route (refl, (refl, tt))

calls_end_example :
    (length schedule ≤ length durations * (4 + 2 * length durations))
    × (((i : ℕ) × (busy_at i (run schedule (calls durations) (latency_of route)).0 ≡ true))
        ⊎ AllFinished (run schedule (calls durations) (latency_of route)).0)
unfolding run calls latency_of route NoneIdle
calls_end_example =
    calls_end schedule durations (latency_of route)
      (refl, (refl, (refl, (refl, (refl, (refl, (refl, (refl, (refl, (refl, tt))))))))))
