-- ===== src/Metrics/Percentile.antt =====
-- `ngx_http_monitoring_percentile`, in src/ngx_http_monitoring_shm.c. The source computes
-- `(ngx_atomic_uint_t) ((double) total * percentile / 100.0)` in floating point: that truncated
-- product is the parameter `scaled total percentile`.
pub mod Laws
pub mod Samples
use ngx_http_monitoring_modu.Prelude.{ℕ, List, [], ◌∷◌, add_word, leb, ◌==◌, if◌then◌else◌}
use ngx_http_monitoring_modu.Metrics.Buckets.{latency_bounds}

-- The first `for`: the wrapping sum of the latency buckets.
pub sum_from : ℕ → List ℕ → ℕ
sum_from total [] = total
sum_from total (c ∷ buckets) = sum_from (add_word total c) buckets

-- `if (target == 0) target = 1`.
abbrev pub at_least_one : ℕ → ℕ
at_least_one target = if target == 0 then 1 else target

-- The second `for`, over the bounds and the buckets that are left; the overflow bucket stands
-- behind the last bound and is not read.
pub percentile_from : List ℕ → List ℕ → ℕ → ℕ → ℕ
percentile_from [] buckets count target = 30000
percentile_from (b ∷ bounds) [] count target = 30000
percentile_from (b ∷ bounds) (c ∷ buckets) count target =
    let count' = add_word count c in
    if leb target count' then b else percentile_from bounds buckets count' target

unfoldable pub percentile : (ℕ → ℕ → ℕ) → List ℕ → ℕ → ℕ
unfolding sum_from percentile_from
percentile scaled buckets p =
    let total = sum_from 0 buckets in
    if total == 0
    then 0
    else percentile_from latency_bounds buckets 0 (at_least_one (scaled total p))
