-- ===== src/Tests/Counters.antt =====
-- The metrics and the accounting at concrete inputs.
use ngx_http_monitoring_modu.Prelude.{
  ℕ, ◌*◌, ◌/◌, ◌-◌, ◌+◌, ◌≤◌, ◌<◌, ◌≡◌, ◌↔◌, List, [], ◌∷◌, length, get_or, arith,
}
use ngx_http_monitoring_modu.Metrics.Buckets.{
  latency_bounds, latency_buckets, latency_bucket, size_bounds, size_buckets, size_bucket,
}
use ngx_http_monitoring_modu.Metrics.Buckets.Laws.{buckets-le_iff}
use ngx_http_monitoring_modu.Metrics.Percentile.{at_least_one, percentile}
use ngx_http_monitoring_modu.Metrics.Percentile.Laws.{percentile_mono}
use ngx_http_monitoring_modu.Metrics.Percentile.Samples.{histogram, Covers, percentile-Covers}
use ngx_http_monitoring_modu.Account.{latency, account}
use ngx_http_monitoring_modu.Account.Latency.{millis, latency-eq-difference}
use ngx_http_monitoring_modu.Account.Balance.{IsBalanced, account-IsBalanced}
use ngx_http_monitoring_modu.Tests.{bits, first_byte, request, process, main_conf, zone}

buckets-le_iff_example :
    (latency_bucket 30 < latency_buckets)
    × ((latency_bucket 30 ≤ 4) ↔ (30 ≤ get_or latency_bounds 4 0))
    × (size_bucket 5000 < size_buckets)
    × ((size_bucket 5000 ≤ 2) ↔ (5000 ≤ get_or size_bounds 2 0))
buckets-le_iff_example = buckets-le_iff 30 4 5000 2 (omega arith) (omega arith)

abbrev scaled : ℕ → ℕ → ℕ
scaled total p = total * p / 100

abbrev samples : List ℕ
samples = 3 ∷ 80 ∷ 12 ∷ 40000 ∷ []

percentile-Covers_example :
    Covers samples
      (at_least_one (scaled (length samples) 75))
      (percentile scaled (histogram samples) 75)
percentile-Covers_example = percentile-Covers scaled samples 75 (λ e. cc) (omega arith)

scaled_mono : (total : ℕ) → scaled total 50 ≤ scaled total 95
scaled_mono total = omega arith

percentile_mono_example :
    percentile scaled (1 ∷ 2 ∷ 3 ∷ []) 50 ≤ percentile scaled (1 ∷ 2 ∷ 3 ∷ []) 95
percentile_mono_example = percentile_mono scaled (1 ∷ 2 ∷ 3 ∷ []) 50 95 scaled_mono

latency-eq-difference_example : latency process request ≡ millis 100 50 - millis 99 800
latency-eq-difference_example =
    latency-eq-difference process request (omega arith, omega arith) (omega arith, omega arith)

zone-IsBalanced : IsBalanced zone.requests
zone-IsBalanced = omega arith

account-IsBalanced_example :
    IsBalanced (account first_byte bits process main_conf request zone).requests
    × ((account first_byte bits process main_conf request zone).requests.total
        ≡ zone.requests.total + 1)
account-IsBalanced_example =
    account-IsBalanced first_byte bits process main_conf request zone (omega arith) zone-IsBalanced
