-- ===== src/Server/Samples/Tests.antt =====
-- Buckets turned and filled, and the theorem at these inputs.
use etunl_cli.Base.{◌+◌, ◌≡◌, refl, ltb, leb, ◌*◌, ◌==◌, if◌then◌else◌, replicate, arith}
use etunl_cli.Server.Samples.{MetricSample, Ring, add_sample, zero_sample, record_sample, restart}
use etunl_cli.Server.Samples.Window.{slot, slot-record_sample}

abbrev one_request : MetricSample
one_request = record { bytes_in = 0; bytes_out = 0; requests = 1 }

abbrev busy : Ring
busy = record_sample 1000 one_request (restart 1000)

-- Two minutes after the first sample, it stands two buckets back.
two_minutes : slot (record_sample (1000 + 120000000000) one_request busy) 2 ≡ one_request
unfolding record_sample restart
two_minutes = refl

abbrev idle : Ring
idle = record { samples = replicate 60 zero_sample; head = 59; bucket_start = 1000 }

slot-record_sample_example :
    (slot (record_sample 60000001000 one_request idle) 0 ≡ (
      if 0 == 0
      then add_sample (if ltb 0 1 then zero_sample else slot idle 0) one_request
      else (if ltb 0 1 then zero_sample else slot idle 0)))
    × ((record_sample 60000001000 one_request idle).bucket_start
        ≡ (if leb 60 1 then 60000001000 else 1000 + 1 * 60000000000))
slot-record_sample_example =
    slot-record_sample 60000001000 0 one_request idle (refl, omega arith) (λ e. omega arith)
      (omega arith)
