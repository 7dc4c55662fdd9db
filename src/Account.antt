-- ===== src/Account.antt =====
-- The accounting of a finished request: `ngx_http_monitoring_account_request`,
-- `ngx_http_monitoring_account_upstream`, `ngx_http_monitoring_update_worker`,
-- `ngx_http_monitoring_update_status` and `ngx_http_monitoring_worker_slot`
-- (src/ngx_http_monitoring_shm.c). A build with NGX_HTTP_SSL is modelled; without it `ssl` is false.
pub mod Latency
pub mod Balance
use ngx_http_monitoring_modu.Prelude.{
  ℕ, ◌%◌, ◌^◌, ℤ, pos, negsuc, Bool, ◌&&◌, List, [], ◌∷◌, Option, none, some, add_word, sub_word,
  mul_word, min, leb, ltb, set, get_or, ◌==◌, if◌then◌else◌,
}
use ngx_http_monitoring_modu.Metrics.Buckets.{latency_bucket, size_bucket, bump}
use ngx_http_monitoring_modu.Metrics.Methods.{MethodBits, method_index}
use ngx_http_monitoring_modu.Top.{Observation, update_top}
use ngx_http_monitoring_modu.Upstream.{account_states}
use ngx_http_monitoring_modu.State.{
  ShCtx, RequestMetric, WorkerMetric, ConnectionMetric, workers_max, top_urls_max, top_ua_max,
}
use ngx_http_monitoring_modu.State.Zero.{zero_worker_metric}
use ngx_http_monitoring_modu.Http.{Request, Process, MainConf}

-- `(tp->sec - r->start_sec) * 1000 + (tp->msec - r->start_msec)`, before the cast to a signed type.
unfoldable pub elapsed_word : Process → Request → ℕ
elapsed_word p r =
    add_word (mul_word (sub_word p.sec r.start_sec) 1000) (sub_word p.msec r.start_msec)

-- `(ms > 0) ? ms : 0`, with `ms` read as a signed word.
unfoldable pub latency : Process → Request → ℕ
unfolding elapsed_word
latency p r = let ms = elapsed_word p r in if ltb ms (2 ^ 63) then ms else 0

-- `status == 0` is taken for a client that went away.
unfoldable pub final_status : ℕ → ℕ
final_status status = if status == 0 then 499 else status

-- A negative length is taken for 0.
abbrev pub sent_bytes : ℤ → ℕ
sent_bytes (pos n) = n
sent_bytes (negsuc n) = 0

-- `ngx_http_monitoring_worker_slot`.
unfoldable pub worker_slot : ℤ → ℕ
worker_slot (negsuc n) = 0
worker_slot (pos n) = n % workers_max

unfoldable pub update_status : ℕ → RequestMetric → RequestMetric
update_status status m =
    if ltb status 200
    then record m { status_1xx = add_word m.status_1xx 1 }
    else if ltb status 300
    then record m { status_2xx = add_word m.status_2xx 1 }
    else if ltb status 400
    then record m { status_3xx = add_word m.status_3xx 1 }
    else if ltb status 500
    then record m { status_4xx = add_word m.status_4xx 1 }
    else record m { status_5xx = add_word m.status_5xx 1 }

-- The additions to `sh->requests` before the status.
unfoldable pub count_request : ℕ → ℕ → ℕ → RequestMetric → RequestMetric
count_request method ms bytes m = record m {
  total = add_word m.total 1;
  responses = add_word m.responses 1;
  bytes = add_word m.bytes bytes;
  request_time_ms_total = add_word m.request_time_ms_total ms;
  method = bump m.method method;
  latency_bucket = bump m.latency_bucket (latency_bucket ms);
  size_bucket = bump m.size_bucket (size_bucket bytes);
}

-- The additions to `sh->connections`.
unfoldable pub count_connection : Request → ConnectionMetric → ConnectionMetric
count_connection r m = record m {
  ssl_requests = if r.ssl then add_word m.ssl_requests 1 else m.ssl_requests;
  ssl_handshakes =
      if r.ssl && leb r.connection_requests 1
      then add_word m.ssl_handshakes 1
      else m.ssl_handshakes;
  keepalive_requests =
      if ltb 1 r.connection_requests then add_word m.keepalive_requests 1 else m.keepalive_requests;
}

-- A request that took more than 30 s counts as an error, and one with a server error too.
unfoldable pub update_worker : Process → ℕ → ℕ → Bool → List WorkerMetric → List WorkerMetric
unfolding worker_slot
update_worker p ms bytes is_error workers =
    let slot = worker_slot p.slot in
    let w = get_or workers slot zero_worker_metric in
    let slow = if ltb 30000 ms then add_word w.errors 1 else w.errors in
    set workers slot (record w {
      pid = p.pid;
      last_seen = p.sec;
      requests = add_word w.requests 1;
      bytes = add_word w.bytes bytes;
      errors = if is_error then add_word slow 1 else slow;
    })

module _ {Double : Type 0} (crc32 : List ℕ → ℕ) (bits : MethodBits) (p : Process) where
  -- The table updates for the URL and, if there is one, for the user agent.
  unfoldable pub update_tops : MainConf → Request → ℕ → ℕ → Bool → ShCtx Double → ShCtx Double
  unfolding update_top
  update_tops conf r ms bytes is_error sh =
      let seen : List ℕ → Observation = λ key. record {
        key = key;
        latency = ms;
        bytes = bytes;
        is_error = is_error;
        now = p.sec;
      } in
      record sh {
        urls =
            update_top crc32 conf.shpool (min conf.max_top_urls top_urls_max) (seen r.uri) sh.urls;
        user_agents = elim r.user_agent [
          | none ↦ sh.user_agents
          | some ua ↦ update_top crc32 conf.shpool top_ua_max (seen ua) sh.user_agents
        ];
      }

  -- `account_upstream`: no states are a loop without a round.
  unfoldable pub account_upstream : MainConf → Request → ℕ → ShCtx Double → ShCtx Double
  unfolding account_states
  account_upstream conf r ms sh =
      if conf.shpool
      then record sh { upstreams = account_states crc32 p.sec ms r.upstream_states sh.upstreams }
      else sh

  unfoldable pub account : MainConf → Request → ShCtx Double → ShCtx Double
  unfolding latency final_status count_request update_status count_connection update_worker
      update_tops account_upstream
  account conf r sh =
      let ms = latency p r in
      let status = final_status r.status in
      let bytes = sent_bytes r.content_length_n in
      let counted = record sh {
        requests =
            update_status status (count_request (method_index bits r.method) ms bytes sh.requests);
        connections = count_connection r sh.connections;
        workers = update_worker p ms bytes (leb 500 status) sh.workers;
      } in
      account_upstream conf r ms (update_tops conf r ms bytes (leb 400 status) counted)

  -- The early return: without a configuration or a zone nothing is accounted.
  unfoldable pub account_request :
      Option MainConf → Request → Option (ShCtx Double) → Option (ShCtx Double)
  unfolding account
  account_request none r sh = sh
  account_request (some conf) r none = none
  account_request (some conf) r (some sh) = some (account conf r sh)
