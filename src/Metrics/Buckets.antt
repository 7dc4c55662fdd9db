-- ===== src/Metrics/Buckets.antt =====
-- `ngx_http_monitoring_latency_bucket` and `ngx_http_monitoring_size_bucket`, in
-- src/ngx_http_monitoring_shm.c, with their tables of bounds.
pub mod Laws
use ngx_http_monitoring_modu.Prelude.{
  ℕ, ◌+◌, List, [], ◌∷◌, leb, set, get_or, add_word, if◌then◌else◌,
}

-- NGX_HTTP_MONITORING_LATENCY_BUCKETS and NGX_HTTP_MONITORING_SIZE_BUCKETS.
abbrev pub latency_buckets : ℕ
latency_buckets = 14

abbrev pub size_buckets : ℕ
size_buckets = 12

-- `ngx_http_monitoring_latency_bounds`, in milliseconds.
abbrev pub latency_bounds : List ℕ
latency_bounds = 1 ∷ 5 ∷ 10 ∷ 25 ∷ 50 ∷ 100 ∷ 250 ∷ 500 ∷ 1000 ∷ 2500 ∷ 5000 ∷ 10000 ∷ 30000 ∷ []

-- `ngx_http_monitoring_size_bounds`, in bytes.
abbrev pub size_bounds : List ℕ
size_bounds =
    512 ∷ 1024 ∷ 2048 ∷ 4096 ∷ 8192 ∷ 16384 ∷ 32768 ∷ 65536 ∷ 262144 ∷ 1048576 ∷ 10485760 ∷ []

-- `ngx_atomic_fetch_add(&counters[i], 1)` on an array of counters.
abbrev pub bump : List ℕ → ℕ → List ℕ
bump counters i = set counters i (add_word (get_or counters i 0) 1)

-- The `for` of both functions from index `i` on: `bounds` is the rest of the table, and a loop that
-- runs to its end leaves `i` at the number of bounds, which is the index of the last bucket.
pub bucket_from : List ℕ → ℕ → ℕ → ℕ
bucket_from [] i x = i
bucket_from (b ∷ bounds) i x = if leb x b then i else bucket_from bounds (i + 1) x

pub latency_bucket : ℕ → ℕ
unfolding bucket_from
latency_bucket ms = bucket_from latency_bounds 0 ms

pub size_bucket : ℕ → ℕ
unfolding bucket_from
size_bucket bytes = bucket_from size_bounds 0 bytes
