-- ===== src/Json/Requests.antt =====
-- The requests part of a document: `ngx_http_monitoring_json_requests` (src/ngx_http_monitoring_json.c).
use ngx_http_monitoring_modu.Prelude.{ℕ, List, [], ◌∷◌, ◌++◌, Bool, String, codes, add_word}
use ngx_http_monitoring_modu.State.{ShCtx}
use ngx_http_monitoring_modu.Metrics.Buckets.{latency_bounds, size_bounds}
use ngx_http_monitoring_modu.Metrics.Percentile.{percentile}
use ngx_http_monitoring_modu.History.{DoubleOps}
use ngx_http_monitoring_modu.Format.{lit, num, real, str}
use ngx_http_monitoring_modu.Json.Call.{Call, append, printf}
use ngx_http_monitoring_modu.Json.Tables.{separated, mean}
use ngx_http_monitoring_modu.Json.Documents.{thousandth}
use ngx_http_monitoring_modu.Json.Top.{json_top_entries}

-- `ngx_http_monitoring_methods`.
abbrev pub method_names : List String
method_names = "GET" ∷ "POST" ∷ "PUT" ∷ "DELETE" ∷ "HEAD" ∷ "OPTIONS" ∷ "PATCH" ∷ "OTHER" ∷ []

module _ {Double : Type 0} where
  abbrev pub method_rows : List String → List ℕ → List (List (Call Double))
  method_rows [] counts = []
  method_rows (name ∷ names) [] = []
  method_rows (name ∷ names) (n ∷ counts) =
      (printf (lit "\"" ∷ str (codes name) ∷ lit "\":" ∷ num n ∷ []) ∷ [])
      ∷ method_rows names counts

  -- A bucket for each bound, and the last one without a bound.
  abbrev pub bucket_rows : List ℕ → List ℕ → List (List (Call Double))
  bucket_rows bounds [] = []
  bucket_rows [] (n ∷ counts) =
      (printf (lit "{\"le\":\"+Inf\",\"count\":" ∷ num n ∷ lit "}" ∷ []) ∷ [])
      ∷ bucket_rows [] counts
  bucket_rows (b ∷ bounds) (n ∷ counts) =
      (printf (lit "{\"le\":" ∷ num b ∷ lit ",\"count\":" ∷ num n ∷ lit "}" ∷ []) ∷ [])
      ∷ bucket_rows bounds counts

module _ {Double : Type 0} (ops : DoubleOps Double) (scaled : ℕ → ℕ → ℕ)
    (cpystrn : List ℕ → List ℕ → ℕ → List ℕ) (sh : ShCtx Double) where
  open ops use {of_word}

  -- `ngx_http_monitoring_percentile`.
  abbrev pub percentile_of : ℕ → Double
  percentile_of n = of_word (percentile scaled sh.requests.latency_bucket n)

  -- The two Booleans are whether the views are allocated.
  unfoldable pub json_requests : Bool → Bool → List (Call Double)
  unfolding percentile json_top_entries
  json_requests urls_allocated agents_allocated =
      printf (
        lit "{\"total\":"
        ∷ num sh.requests.total
        ∷ lit ",\"responses\":"
        ∷ num sh.requests.responses
        ∷ lit ",\"bytes\":"
        ∷ num sh.requests.bytes
        ∷ lit ",\"requests_per_sec\":"
        ∷ real 3 (thousandth ops sh.ewma_rps_milli)
        ∷ lit ",\"responses_per_sec\":"
        ∷ real 3 (thousandth ops sh.ewma_resp_milli)
        ∷ lit ",\"error_rate\":"
        ∷ real 6
            (mean ops (add_word sh.requests.status_4xx sh.requests.status_5xx) sh.requests.total)
        ∷ lit ",\"latency\":{\"avg\":"
        ∷ real 3 (mean ops sh.requests.request_time_ms_total sh.requests.total)
        ∷ lit ",\"p50\":"
        ∷ real 3 (percentile_of 50)
        ∷ lit ",\"p90\":"
        ∷ real 3 (percentile_of 90)
        ∷ lit ",\"p95\":"
        ∷ real 3 (percentile_of 95)
        ∷ lit ",\"p99\":"
        ∷ real 3 (percentile_of 99)
        ∷ lit "},\"status\":{\"1xx\":"
        ∷ num sh.requests.status_1xx
        ∷ lit ",\"2xx\":"
        ∷ num sh.requests.status_2xx
        ∷ lit ",\"3xx\":"
        ∷ num sh.requests.status_3xx
        ∷ lit ",\"4xx\":"
        ∷ num sh.requests.status_4xx
        ∷ lit ",\"5xx\":"
        ∷ num sh.requests.status_5xx
        ∷ lit "},\"methods\":{"
        ∷ [])
      ∷ (separated (method_rows method_names sh.requests.method)
          ++ (append (codes "},\"latency_histogram\":[")
              ∷ (separated (bucket_rows latency_bounds sh.requests.latency_bucket)
                  ++ (append (codes "],\"size_histogram\":[")
                      ∷ (separated (bucket_rows size_bounds sh.requests.size_bucket)
                          ++ (append (codes "],\"top_urls\":")
                              ∷ (json_top_entries ops cpystrn urls_allocated sh.urls "url"
                                  ++ (append (codes ",\"user_agents\":")
                                      ∷ (json_top_entries ops cpystrn agents_allocated
                                            sh.user_agents "user_agent"
                                          ++ (append (codes "}") ∷ []))))))))))
