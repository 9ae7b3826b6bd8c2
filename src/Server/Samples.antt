-- ===== src/Server/Samples.antt =====
-- internal/server/metrics.go: the sparkline buckets of a route, which recordSample turns and fills. A
-- time is its number of nanoseconds since Go's zero time.
pub mod Window
pub mod Listing
mod Tests
use etunl_cli.Base.{
  ℕ, zero, suc, ◌+◌, ◌-◌, ◌*◌, ◌/◌, ◌%◌, ◌^◌, List, [], ◌∷◌, leb, ◌==◌, if◌then◌else◌, get_or, set,
  replicate,
}

abbrev pub metrics_buckets : ℕ
metrics_buckets = 60

abbrev pub metrics_bucket_duration : ℕ
metrics_bucket_duration = 60000000000

pub record MetricSample : Type 0 where
  pub bytes_in : ℕ
  pub bytes_out : ℕ
  pub requests : ℕ

-- `Add` of an atomic of 64 bits.
abbrev pub add64 : ℕ → ℕ → ℕ
add64 a b = (a + b) % 2 ^ 64

abbrev pub zero_sample : MetricSample
zero_sample = record { bytes_in = 0; bytes_out = 0; requests = 0 }

abbrev pub add_sample : MetricSample → MetricSample → MetricSample
add_sample a b = record {
  bytes_in = add64 a.bytes_in b.bytes_in;
  bytes_out = add64 a.bytes_out b.bytes_out;
  requests = add64 a.requests b.requests;
}

-- The part of a RouteMetrics that `sampleMu` guards.
pub record Ring : Type 0 where
  pub samples : List MetricSample
  pub head : ℕ
  pub bucket_start : ℕ

-- One round of the loop over the elapsed buckets.
pub advance : Ring → Ring
advance r =
    let h = (r.head + 1) % metrics_buckets in
    record r { samples = set r.samples h zero_sample; head = h }

pub advance_by : ℕ → Ring → Ring
advance_by zero r = r
advance_by (suc k) r = advance_by k (advance r)

-- A gap of the whole window clears every bucket.
pub restart : ℕ → Ring
restart now = record {
  samples = replicate metrics_buckets zero_sample;
  head = 0;
  bucket_start = now;
}

-- `if m.bucketStart.IsZero() { m.bucketStart = now }`
pub started : ℕ → Ring → Ring
started now r = if r.bucket_start == 0 then record r { bucket_start = now } else r

-- A clock that reads less than `bucketStart` gives no elapsed bucket: Go's quotient is then zero or
-- negative, and no branch below is taken on it.
pub buckets_elapsed : ℕ → Ring → ℕ
buckets_elapsed now r = (now - r.bucket_start) / metrics_bucket_duration

pub moved_on : ℕ → ℕ → Ring → Ring
unfolding advance advance_by restart
moved_on now k r =
    let turned = advance_by k r in
    if leb metrics_buckets k
    then restart now
    else record turned { bucket_start = r.bucket_start + k * metrics_bucket_duration }

pub add_at_head : MetricSample → Ring → Ring
add_at_head s r = record r {
  samples = set r.samples r.head (add_sample (get_or r.samples r.head zero_sample) s);
}

-- `recordSample`, with the sample it adds
pub record_sample : ℕ → MetricSample → Ring → Ring
unfolding started buckets_elapsed moved_on add_at_head
record_sample now s r =
    let r' = started now r in add_at_head s (moved_on now (buckets_elapsed now r') r')

-- The samples of a snapshot: oldest bucket first.
pub ordered_from : ℕ → ℕ → Ring → List MetricSample
ordered_from zero i r = []
ordered_from (suc left) i r =
    get_or r.samples ((r.head + 1 + i) % metrics_buckets) zero_sample ∷ ordered_from left (i + 1) r

pub ordered_samples : Ring → List MetricSample
unfolding ordered_from
ordered_samples r = ordered_from metrics_buckets 0 r
