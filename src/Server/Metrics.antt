-- ===== src/Server/Metrics.antt =====
-- internal/server/metrics.go: the counters of the routes. An atomic uint64 is a number below 2^64, and the Int64 `activeConns` is kept as its two's complement bits.
pub mod Counters
pub mod Ordering
pub mod Latency
pub mod Snapshot
mod Tests
use etunl_cli.Base.{
  ℕ, zero, suc, ◌+◌, ◌-◌, ◌*◌, ◌/◌, ◌%◌, ◌^◌, Bool, true, false, ◌&&◌, ◌||◌, not, Option, none,
  some, List, [], ◌∷◌, ltb, leb, ◌==◌, if◌then◌else◌, replicate,
}
use etunl_cli.Server.Samples.{
  MetricSample, Ring, add64, metrics_buckets, record_sample, zero_sample,
}
use etunl_cli.Base.Bytes.{Bytes, codes, bytes_is_eq}
use etunl_cli.Base.Dict.{Dict, lookup, insert}
use etunl_cli.Base.Int.{ℤ, pos, negsuc, pos_part}

pub record RouteMetrics : Type 0 where
  pub machine : Bytes
  pub route : Bytes
  pub type : Bytes
  pub requests : ℕ
  pub bytes_in : ℕ
  pub bytes_out : ℕ
  pub total_conns : ℕ
  pub active_conns : ℕ
  pub latency_count : ℕ
  pub latency_sum_ns : ℕ
  pub latency_max_ns : ℕ
  pub samples : List MetricSample
  pub head : ℕ
  pub bucket_start : ℕ

-- `Add(-1)`
abbrev pub minus_one : ℕ
minus_one = 2 ^ 64 - 1

abbrev pub ring_of : RouteMetrics → Ring
ring_of m = record { samples = m.samples; head = m.head; bucket_start = m.bucket_start }

-- The counters of a RouteMetrics after a change, with its samples after `recordSample`.
pub sampled : ℕ → MetricSample → RouteMetrics → RouteMetrics
sampled now s m =
    let r = record_sample now s (ring_of m) in
    record m { samples = r.samples; head = r.head; bucket_start = r.bucket_start }

-- `recordLatency`, of a duration in nanoseconds
pub record_latency : ℤ → RouteMetrics → RouteMetrics
record_latency d m =
    let ns = pos_part d in
    if ns == 0 then m else record m {
      latency_count = add64 m.latency_count 1;
      latency_sum_ns = add64 m.latency_sum_ns ns;
      latency_max_ns = if leb ns m.latency_max_ns then m.latency_max_ns else ns;
    }

abbrev pub Registry : Type 0
Registry = Dict Bytes RouteMetrics

pub new_metrics : ℕ → Bytes → Bytes → Bytes → RouteMetrics
new_metrics now machine route type = record {
  machine = machine;
  route = route;
  type = type;
  requests = 0;
  bytes_in = 0;
  bytes_out = 0;
  total_conns = 0;
  active_conns = 0;
  latency_count = 0;
  latency_sum_ns = 0;
  latency_max_ns = 0;
  samples = replicate metrics_buckets zero_sample;
  head = 0;
  bucket_start = now;
}

-- `Registry.get`: the entry of the route, a new one where there is none.
pub get : ℕ → Registry → Bytes → Bytes → Bytes → RouteMetrics
unfolding new_metrics
get now reg machine route type = elim (lookup route reg) [
  | some m ↦ m
  | none ↦ new_metrics now machine route type
]

-- The counters `requests`, `bytesIn`, `bytesOut`, `totalConns` and `activeConns`, each plus a number.
pub counted : (r i o t a : ℕ) → RouteMetrics → RouteMetrics
counted r i o t a m = record m {
  requests = add64 m.requests r;
  bytes_in = add64 m.bytes_in i;
  bytes_out = add64 m.bytes_out o;
  total_conns = add64 m.total_conns t;
  active_conns = add64 m.active_conns a;
}

abbrev one_request : MetricSample
one_request = record { bytes_in = 0; bytes_out = 0; requests = 1 }

-- `RecordHTTPRequest`
pub record_http_request : ℕ → Bytes → Bytes → ℤ → Registry → Registry
unfolding get counted record_latency sampled
record_http_request now machine route dur reg =
    insert route
      (sampled now one_request
        (record_latency dur (counted 1 0 0 0 0 (get now reg machine route (codes "http")))))
      reg

-- `RecordBytesIn`
pub record_bytes_in : ℕ → Bytes → Bytes → Bytes → ℤ → Registry → Registry
unfolding get counted sampled
record_bytes_in now machine route type n reg =
    let k = pos_part n in
    if k == 0
    then reg
    else insert route
        (sampled now (record { bytes_in = k; bytes_out = 0; requests = 0 })
          (counted 0 k 0 0 0 (get now reg machine route type)))
        reg

-- `RecordBytesOut`
pub record_bytes_out : ℕ → Bytes → Bytes → Bytes → ℤ → Registry → Registry
unfolding get counted sampled
record_bytes_out now machine route type n reg =
    let k = pos_part n in
    if k == 0
    then reg
    else insert route
        (sampled now (record { bytes_in = 0; bytes_out = k; requests = 0 })
          (counted 0 0 k 0 0 (get now reg machine route type)))
        reg

-- `OpenConn`
pub open_conn : ℕ → Bytes → Bytes → Bytes → Registry → Registry
unfolding get counted sampled
open_conn now machine route type reg =
    insert route (sampled now one_request (counted 1 0 0 1 1 (get now reg machine route type))) reg

-- `CloseConn`
pub close_conn : ℕ → Bytes → Bytes → Bytes → Registry → Registry
unfolding get counted
close_conn now machine route type reg =
    insert route (counted 0 0 0 0 minus_one (get now reg machine route type)) reg

-- The fields of a RouteSnapshot that its order reads.
pub record Activity : Type 0 where
  pub route : Bytes
  pub bytes_in : ℕ
  pub bytes_out : ℕ
  pub requests : ℕ

-- Go's `<` on strings.
pub bytes_lt : Bytes → Bytes → Bool
bytes_lt [] [] = false
bytes_lt [] (y ∷ ys) = true
bytes_lt (x ∷ xs) [] = false
bytes_lt (x ∷ xs) (y ∷ ys) = ltb x y || (x == y && bytes_lt xs ys)

abbrev pub activity : Activity → ℕ
activity a = (a.bytes_in + a.bytes_out + a.requests) % 2 ^ 64

-- The comparison that Snapshot sorts by.
pub more_active : Activity → Activity → Bool
unfolding bytes_lt
more_active a b =
    if not (activity a == activity b)
    then ltb (activity b) (activity a)
    else bytes_lt a.route b.route
