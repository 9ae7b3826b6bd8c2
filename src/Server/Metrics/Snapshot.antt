-- ===== src/Server/Metrics/Snapshot.antt =====
-- internal/server/metrics.go: Snapshot, which the admin panel shows, behind any calls of the other
-- methods. The arithmetic of float64 and sort.Slice are arguments.
pub mod Ordered
pub mod Entries
pub mod Determined
mod Tests
use etunl_cli.Base.{ℕ, Bool, List, [], ◌∷◌, ltb, if◌then◌else◌}
use etunl_cli.Base.Bytes.{Bytes}
use etunl_cli.Base.Int.{ℤ}
use etunl_cli.Server.Samples.{MetricSample, Ring, ordered_samples}
use etunl_cli.Server.Metrics.{
  RouteMetrics, Registry, Activity, ring_of, more_active, record_http_request, record_bytes_in,
  record_bytes_out, open_conn, close_conn,
}

-- A call of a method of the Registry, with its time.
pub data Traffic : Type 0 where
  http_done : (now : ℕ) (machine route : Bytes) (dur : ℤ) → Traffic
  went_in went_out : (now : ℕ) (machine route type : Bytes) (n : ℤ) → Traffic
  opened closed : (now : ℕ) (machine route type : Bytes) → Traffic

pub counted_in : Traffic → Registry → Registry
counted_in (http_done now machine route dur) reg = record_http_request now machine route dur reg
counted_in (went_in now machine route type n) reg = record_bytes_in now machine route type n reg
counted_in (went_out now machine route type n) reg = record_bytes_out now machine route type n reg
counted_in (opened now machine route type) reg = open_conn now machine route type reg
counted_in (closed now machine route type) reg = close_conn now machine route type reg

-- NewRegistry, and the calls behind it; the latest is the first of the list.
pub registry_after : List Traffic → Registry
unfolding counted_in
registry_after [] = []
registry_after (t ∷ ts) = counted_in t (registry_after ts)

-- `float64(n)`, and the quotient of two.
pub record Floats : Type 1 where
  pub Float : Type 0
  pub of_nat : ℕ → Float
  pub div : Float → Float → Float
  pub is_set : IsSet Float

module _ (fl : Floats) where
  open fl use {Float, of_nat, div}

  pub record RouteSnapshot : Type 0 where
    pub machine : Bytes
    pub route : Bytes
    pub type : Bytes
    pub requests : ℕ
    pub bytes_in : ℕ
    pub bytes_out : ℕ
    pub active_conns : ℕ
    pub total_conns : ℕ
    pub latency_count : ℕ
    pub latency_avg_ms : Float
    pub latency_max_ms : Float
    pub samples : List MetricSample

  -- `snapshot`; the number of active connections is given as its bits.
  pub snapshot : RouteMetrics → RouteSnapshot
  snapshot m = record {
    machine = m.machine;
    route = m.route;
    type = m.type;
    requests = m.requests;
    bytes_in = m.bytes_in;
    bytes_out = m.bytes_out;
    active_conns = m.active_conns;
    total_conns = m.total_conns;
    latency_count = m.latency_count;
    latency_avg_ms =
        if ltb 0 m.latency_count
        then div (div (of_nat m.latency_sum_ns) (of_nat m.latency_count)) (of_nat 1000000)
        else of_nat 0;
    latency_max_ms = div (of_nat m.latency_max_ns) (of_nat 1000000);
    samples = ordered_samples (ring_of m);
  }

  pub activity_of : RouteSnapshot → Activity
  activity_of s = record {
    route = s.route;
    bytes_in = s.bytes_in;
    bytes_out = s.bytes_out;
    requests = s.requests;
  }

  -- The comparison of Snapshot.
  pub comes_first : RouteSnapshot → RouteSnapshot → Bool
  unfolding activity_of
  comes_first a b = more_active (activity_of a) (activity_of b)

  -- The loop over the map, in the order of its entries.
  pub all_snapshots : Registry → List RouteSnapshot
  unfolding snapshot
  all_snapshots [] = []
  all_snapshots ((route, m) ∷ reg) = snapshot m ∷ all_snapshots reg

  -- `Snapshot`
  pub snapshots :
      ((RouteSnapshot → RouteSnapshot → Bool) → List RouteSnapshot → List RouteSnapshot)
      → Registry
      → List RouteSnapshot
  unfolding comes_first all_snapshots
  snapshots sort reg = sort comes_first (all_snapshots reg)
