-- ===== src/Server/Metrics/Latency.antt =====
-- internal/server/metrics.go: recordLatency by several goroutines at once, at its atomic steps: two
-- additions, then loads and compare-and-swaps until the maximum is no less than the duration.
pub mod Agreement
pub mod Progress
mod Tests
use etunl_cli.Base.{ℕ, zero, suc, List, [], ◌∷◌, leb, ◌==◌, if◌then◌else◌}
use etunl_cli.Base.Int.{ℤ, pos_part}
use etunl_cli.Server.Samples.{add64}
use etunl_cli.Server.Metrics.{RouteMetrics, record_latency}

-- `latencyCount`, `latencySumNs` and `latencyMaxNs`
pub record Latency : Type 0 where
  pub count : ℕ
  pub sum_ns : ℕ
  pub max_ns : ℕ

pub latency_of : RouteMetrics → Latency
latency_of m = record {
  count = m.latency_count;
  sum_ns = m.latency_sum_ns;
  max_ns = m.latency_max_ns;
}

-- Where a call of recordLatency stands: before `latencyCount.Add(1)`, before `latencySumNs.Add(ns)`,
-- before `Load`, or before `CompareAndSwap(old, ns)`.
pub data Recorder : Type 0 where
  counts sums loads : (ns : ℕ) → Recorder
  swaps : (ns old : ℕ) → Recorder
  finished : Recorder

-- `if d <= 0 { return }`
pub called : ℤ → Recorder
called d = let ns = pos_part d in if ns == 0 then finished else counts ns

pub step : Recorder → Latency → Recorder × Latency
step (counts ns) l = (sums ns, record l { count = add64 l.count 1 })
step (sums ns) l = (loads ns, record l { sum_ns = add64 l.sum_ns ns })
step (loads ns) l = if leb ns l.max_ns then (finished, l) else (swaps ns l.max_ns, l)
step (swaps ns old) l =
    if l.max_ns == old then (finished, record l { max_ns = ns }) else (loads ns, l)
step finished l = (finished, l)

-- One step of the goroutine with this number.
pub step_at : ℕ → List Recorder → Latency → List Recorder × Latency
unfolding step
step_at i [] l = ([], l)
step_at zero (r ∷ rs) l = let (r', l') = step r l in (r' ∷ rs, l')
step_at (suc i) (r ∷ rs) l = let (rs', l') = step_at i rs l in (r ∷ rs', l')

-- The goroutines under a schedule.
pub run : List ℕ → List Recorder → Latency → List Recorder × Latency
unfolding step_at
run [] rs l = (rs, l)
run (i ∷ is) rs l = let (rs', l') = step_at i rs l in run is rs' l'

pub calls : List ℤ → List Recorder
unfolding called
calls [] = []
calls (d ∷ ds) = called d ∷ calls ds

-- The calls one after another, the first of the list last.
pub in_turn : List ℤ → RouteMetrics → RouteMetrics
in_turn [] m = m
in_turn (d ∷ ds) m = record_latency d (in_turn ds m)
