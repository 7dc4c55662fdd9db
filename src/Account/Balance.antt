-- ===== src/Account/Balance.antt =====
-- The request counters agree with one another after every request.
use ngx_http_monitoring_modu.Prelude.{
  ℕ, ◌+◌, ◌≤◌, ◌<◌, ◌≡◌, inl, inr, List, arith, length, length-set, add_word, get_or, word_max,
  Bool-cases,
}
use ngx_http_monitoring_modu.Metrics.Buckets.{
  bump, latency_buckets, size_buckets, latency_bucket, size_bucket,
}
use ngx_http_monitoring_modu.Metrics.Buckets.Laws.{latency_bucket-le_iff, size_bucket-le_iff}
use ngx_http_monitoring_modu.Metrics.Methods.{MethodBits, methods, method_index}
use ngx_http_monitoring_modu.Metrics.Methods.Laws.{method_index-lt}
use ngx_http_monitoring_modu.Metrics.Percentile.Laws.{sum}
use ngx_http_monitoring_modu.Metrics.Percentile.Samples.{sum-bump}
use ngx_http_monitoring_modu.State.{ShCtx, RequestMetric}
use ngx_http_monitoring_modu.Http.{Request, Process, MainConf}
use ngx_http_monitoring_modu.Account.{
  final_status, sent_bytes, latency, update_status, count_request, account,
}

-- Every request is counted once as a response, once by its status, once by its method and once in
-- each histogram.
pub record IsBalanced (m : RequestMetric) : Type 0 where
  pub word : m.total ≤ word_max
  pub responses : m.responses ≡ m.total
  pub statuses : m.status_1xx + m.status_2xx + m.status_3xx + m.status_4xx + m.status_5xx ≡ m.total
  pub methods_size : length m.method ≡ methods
  pub methods_sum : sum m.method ≡ m.total
  pub latencies_size : length m.latency_bucket ≡ latency_buckets
  pub latencies_sum : sum m.latency_bucket ≡ m.total
  pub sizes_size : length m.size_bucket ≡ size_buckets
  pub sizes_sum : sum m.size_bucket ≡ m.total

-- The counters before the status is counted.
record LacksStatus (m : RequestMetric) : Type 0 where
  word : m.total ≤ word_max
  responses : m.responses ≡ m.total
  statuses : m.status_1xx + m.status_2xx + m.status_3xx + m.status_4xx + m.status_5xx + 1 ≡ m.total
  methods_size : length m.method ≡ methods
  methods_sum : sum m.method ≡ m.total
  latencies_size : length m.latency_bucket ≡ latency_buckets
  latencies_sum : sum m.latency_bucket ≡ m.total
  sizes_size : length m.size_bucket ≡ size_buckets
  sizes_sum : sum m.size_bucket ≡ m.total

length-bump : (xs : List ℕ) (i : ℕ) → length (bump xs i) ≡ length xs
length-bump xs i = length-set xs i (add_word (get_or xs i 0) 1)

count_request-LacksStatus :
    (method ms bytes : ℕ) (m : RequestMetric)
    → method < methods
    → m.total < word_max
    → IsBalanced m
    → LacksStatus (count_request method ms bytes m)
unfolding count_request
count_request-LacksStatus method ms bytes m h w b =
    let t : add_word m.total 1 ≡ m.total + 1 = omega arith in
    let lb = (latency_bucket-le_iff ms 0 (omega arith)).0 in
    let sb = (size_bucket-le_iff bytes 0 (omega arith)).0 in
    record {
      word = omega arith;
      responses = omega (arith, b.responses);
      statuses = omega (arith, b.statuses);
      methods_size = omega (arith, length-bump m.method method, b.methods_size);
      methods_sum = omega (
        arith,
        sum-bump m.method method (omega (arith, b.methods_size)) (omega (arith, b.methods_sum)),
        b.methods_sum,
      );
      latencies_size =
          omega (arith, length-bump m.latency_bucket (latency_bucket ms), b.latencies_size);
      latencies_sum = omega (
        arith,
        sum-bump m.latency_bucket (latency_bucket ms) (omega (arith, b.latencies_size))
            (omega (arith, b.latencies_sum)),
        b.latencies_sum,
      );
      sizes_size = omega (arith, length-bump m.size_bucket (size_bucket bytes), b.sizes_size);
      sizes_sum = omega (
        arith,
        sum-bump m.size_bucket (size_bucket bytes) (omega (arith, b.sizes_size))
            (omega (arith, b.sizes_sum)),
        b.sizes_sum,
      );
    }

update_status-IsBalanced :
    (status : ℕ) (m : RequestMetric)
    → LacksStatus m
    → IsBalanced (update_status status m) × ((update_status status m).total ≡ m.total)
unfolding update_status
update_status-IsBalanced status m b = ground arith

counted-IsBalanced :
    (status method ms bytes : ℕ) (m : RequestMetric)
    → method < methods
    → m.total < word_max
    → IsBalanced m
    → let m' = update_status status (count_request method ms bytes m) in
      IsBalanced m' × (m'.total ≡ m.total + 1)
unfolding count_request
counted-IsBalanced status method ms bytes m h w b =
    let (balanced, total) =
      update_status-IsBalanced status (count_request method ms bytes m)
        (count_request-LacksStatus method ms bytes m h w b) in
    (balanced, omega (arith, total))

module _ {Double : Type 0} (crc32 : List ℕ → ℕ) (bits : MethodBits) (p : Process) (conf : MainConf)
    (r : Request) (sh : ShCtx Double) where
  account-requests :
      (account crc32 bits p conf r sh).requests
      ≡ update_status (final_status r.status) (
          count_request
            (method_index bits r.method)
            (latency p r)
            (sent_bytes r.content_length_n)
            sh.requests)
  unfolding account
  account-requests = elim (Bool-cases conf.shpool) [ inl e ↦ rw e | inr e ↦ rw e ]

  -- Accounting a request adds one to the total and keeps all the request counters in agreement,
  -- unless the total wraps around.
  pub account-IsBalanced :
      sh.requests.total < word_max
      → IsBalanced sh.requests
      → IsBalanced (account crc32 bits p conf r sh).requests
        × ((account crc32 bits p conf r sh).requests.total ≡ sh.requests.total + 1)
  account-IsBalanced w b = rw account-requests (
      counted-IsBalanced (final_status r.status) (method_index bits r.method) (latency p r)
        (sent_bytes r.content_length_n) sh.requests (method_index-lt bits r.method) w b)
