-- ===== src/Metrics/Buckets/Laws.antt =====
-- What a histogram bucket means: its bound is the least one that the value does not exceed.
use ngx_http_monitoring_modu.Prelude.{
  ℕ, zero, suc, ◌+◌, ◌≤◌, ◌<◌, ◌↔◌, List, [], ◌∷◌, arith, length, get_or,
}
use ngx_http_monitoring_modu.Metrics.Buckets.{
  bucket_from, latency_bucket, size_bucket, latency_bounds, size_bounds, latency_buckets,
  size_buckets,
}

-- Strictly ascending bounds, all above `lo`.
abbrev pub Ascends : ℕ → List ℕ → Type 0
Ascends lo [] = Unit {0}
Ascends lo (b ∷ bounds) = (lo < b) × Ascends b bounds

above_all :
    (bounds : List ℕ) (lo x j : ℕ)
    → Ascends lo bounds
    → x ≤ lo
    → j < length bounds
    → x ≤ get_or bounds j 0
above_all [] lo x j a h l = absurd (omega arith)
above_all (b ∷ bounds) lo x zero a h l = omega arith
above_all (b ∷ bounds) lo x (suc j) a h l = above_all bounds b x j a.1 (omega arith) (omega arith)

pub bucket_from_bounds :
    (bounds : List ℕ) (i x : ℕ)
    → (i ≤ bucket_from bounds i x) × (bucket_from bounds i x ≤ i + length bounds)
unfolding bucket_from
bucket_from_bounds [] i x = omega arith
bucket_from_bounds (b ∷ bounds) i x = ground (arith, bucket_from_bounds bounds (i + 1) x)

-- The bucket is at most the `j`-th exactly when the value is within the `j`-th bound.
pub bucket_from-le_iff :
    (bounds : List ℕ) (lo i x j : ℕ)
    → Ascends lo bounds
    → j < length bounds
    → (bucket_from bounds i x ≤ i + j) ↔ (x ≤ get_or bounds j 0)
unfolding bucket_from
bucket_from-le_iff [] lo i x j a h = absurd (omega arith)
bucket_from-le_iff (b ∷ bounds) lo i x zero a h =
    ground (arith, bucket_from_bounds bounds (i + 1) x)
bucket_from-le_iff (b ∷ bounds) lo i x (suc j) a h =
    ground (arith, bucket_from-le_iff bounds b (i + 1) x j a.1, above_all bounds b x j a.1)

pub latency_bucket-le_iff :
    (ms j : ℕ)
    → j < 13
    → (latency_bucket ms < latency_buckets)
      × ((latency_bucket ms ≤ j) ↔ (ms ≤ get_or latency_bounds j 0))
unfolding latency_bucket
latency_bucket-le_iff ms j h = (
  omega (arith, bucket_from_bounds latency_bounds 0 ms),
  ground (arith, bucket_from-le_iff latency_bounds 0 0 ms j (omega arith) h),
)

pub size_bucket-le_iff :
    (bytes j : ℕ)
    → j < 11
    → (size_bucket bytes < size_buckets)
      × ((size_bucket bytes ≤ j) ↔ (bytes ≤ get_or size_bounds j 0))
unfolding size_bucket
size_bucket-le_iff bytes j h = (
  omega (arith, bucket_from_bounds size_bounds 0 bytes),
  ground (arith, bucket_from-le_iff size_bounds 0 0 bytes j (omega arith) h),
)

-- The latency bucket of a request is one of the fourteen, and for each of the thirteen bounds it is
-- at or below that bound's bucket exactly when the latency is within the bound. The size bucket of a
-- response is one of the twelve, and so for its eleven bounds.
pub buckets-le_iff :
    (ms j bytes k : ℕ)
    → j < 13
    → k < 11
    → (latency_bucket ms < latency_buckets)
      × ((latency_bucket ms ≤ j) ↔ (ms ≤ get_or latency_bounds j 0))
      × (size_bucket bytes < size_buckets)
      × ((size_bucket bytes ≤ k) ↔ (bytes ≤ get_or size_bounds k 0))
buckets-le_iff ms j bytes k h l =
    let a = latency_bucket-le_iff ms j h in
    let b = size_bucket-le_iff bytes k l in (a.0, a.1, b.0, b.1)
