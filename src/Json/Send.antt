-- ===== src/Json/Send.antt =====
-- The responses of src/ngx_http_monitoring_json.c: `ngx_http_monitoring_send_json`,
-- `ngx_http_monitoring_send_prometheus`, `ngx_http_monitoring_send_health`,
-- `ngx_http_monitoring_send_buffer` and `ngx_http_monitoring_add_no_store`.
pub mod Steady
pub mod Given
pub mod Whole
use ngx_http_monitoring_modu.Prelude.{
  ℕ, ◌+◌, ◌*◌, pos, List, [], ◌∷◌, ◌++◌, Bool, true, false, Option, none, some, String, codes,
  length, sub_word, ltb, ◌==◌, if◌then◌else◌,
}
use ngx_http_monitoring_modu.State.{ShCtx, HistorySample}
use ngx_http_monitoring_modu.Http.{Request, Process, Nginx, Rc, http}
use ngx_http_monitoring_modu.Endpoint.{
  Endpoint, ep_none, dashboard, live, prometheus, health, api_full, api_system, api_nginx,
  api_network, api_disk, api_processes, api_upstreams, api_connections, api_requests,
}
use ngx_http_monitoring_modu.Metrics.Percentile.{percentile}
use ngx_http_monitoring_modu.History.{DoubleOps}
use ngx_http_monitoring_modu.Exchange.{
  Exchange, discard_body, send_body, allocates, log_sent, push_header, send_header, internal_error,
}
use ngx_http_monitoring_modu.Format.{Digits, lit, num, real}
use ngx_http_monitoring_modu.Json.{JsonWriter}
use ngx_http_monitoring_modu.Json.Call.{Call, append, printf, calls}
use ngx_http_monitoring_modu.Json.Documents.{
  json_header, json_system, json_processes, json_nginx, json_connections,
}
use ngx_http_monitoring_modu.Json.Tables.{json_network, json_disk, json_upstreams, history_calls}
use ngx_http_monitoring_modu.Json.Requests.{json_requests}
use ngx_http_monitoring_modu.Sse.{service_unavailable}

-- `scope`.
abbrev pub scope : Endpoint → String
scope api_system = "system"
scope api_nginx = "nginx"
scope api_network = "network"
scope api_disk = "disk"
scope api_processes = "processes"
scope api_upstreams = "upstreams"
scope api_connections = "connections"
scope api_requests = "requests"
scope _ = "full"

module _ {Double : Type 0} (ops : DoubleOps Double) (scaled : ℕ → ℕ → ℕ)
    (cpystrn : List ℕ → List ℕ → ℕ → List ℕ) (z : HistorySample Double) (sh : ShCtx Double)
    (urls_allocated agents_allocated : Bool) where
  abbrev part : String → List (Call Double) → List (Call Double)
  part name inner = append (codes name) ∷ inner

  abbrev requests_part : List (Call Double)
  requests_part =
      part ",\"requests\":" (json_requests ops scaled cpystrn sh urls_allocated agents_allocated)

  -- The calls between the header and the end, by the tests of the endpoint.
  unfoldable pub json_parts : Endpoint → List (Call Double)
  unfolding json_system json_nginx json_network json_disk json_processes json_upstreams
      json_connections json_requests history_calls
  json_parts api_full =
      part ",\"system\":" (json_system ops sh)
      ++ (part ",\"nginx\":" (json_nginx ops sh)
          ++ (part ",\"network\":" (json_network sh)
              ++ (part ",\"disk\":" (json_disk sh)
                  ++ (part ",\"processes\":" (json_processes ops sh)
                      ++ (part ",\"upstreams\":" (json_upstreams ops sh)
                          ++ (part ",\"connections\":" (json_connections ops sh)
                              ++ (requests_part ++ part ",\"history\":" (history_calls z sh))))))))
  json_parts api_system = part ",\"system\":" (json_system ops sh)
  json_parts api_nginx = part ",\"nginx\":" (json_nginx ops sh)
  json_parts api_network = part ",\"network\":" (json_network sh)
  json_parts api_disk = part ",\"disk\":" (json_disk sh)
  json_parts api_processes = part ",\"processes\":" (json_processes ops sh)
  json_parts api_upstreams = part ",\"upstreams\":" (json_upstreams ops sh)
  json_parts api_connections = part ",\"connections\":" (json_connections ops sh)
  json_parts api_requests = requests_part
  json_parts _ = []

  unfoldable pub json_document : Process → Endpoint → List (Call Double)
  unfolding json_header json_parts
  json_document p endpoint =
      json_header p (scope endpoint) ++ (json_parts endpoint ++ (append (codes "}\n") ∷ []))

module _ {Double : Type 0} (ops : DoubleOps Double) (scaled : ℕ → ℕ → ℕ) (sh : ShCtx Double) where
  open ops use {of_word, over}

  abbrev memory_calls : List (Call Double)
  memory_calls =
      if ltb 0 sh.system.mem_total
      then printf (
          lit "nginx_monitor_memory_used_ratio "
          ∷ real 3 (
              over (of_word (sub_word sh.system.mem_total sh.system.mem_available))
                (of_word sh.system.mem_total))
          ∷ lit "\n"
          ∷ [])
        ∷ []
      else append (codes "nginx_monitor_memory_used_ratio 0\n") ∷ []

  unfoldable pub prometheus_document : List (Call Double)
  unfolding percentile
  prometheus_document =
      append (
        codes
          "# HELP nginx_monitor_requests_total Total HTTP requests observed by ngx_http_monitoring_module\n# TYPE nginx_monitor_requests_total counter\n")
      ∷ printf (lit "nginx_monitor_requests_total " ∷ num sh.requests.total ∷ lit "\n" ∷ [])
      ∷ append (
          codes
            "# HELP nginx_monitor_active_connections Active nginx connections\n# TYPE nginx_monitor_active_connections gauge\n")
      ∷ printf (lit "nginx_monitor_active_connections " ∷ num sh.connections.active ∷ lit "\n" ∷ [])
      ∷ append (
          codes
            "# HELP nginx_monitor_cpu_usage_ratio CPU usage ratio\n# TYPE nginx_monitor_cpu_usage_ratio gauge\n")
      ∷ printf (
          lit "nginx_monitor_cpu_usage_ratio "
          ∷ real 3 (over (of_word sh.system.usage_milli) (of_word 100000))
          ∷ lit "\n"
          ∷ [])
      ∷ append (
          codes
            "# HELP nginx_monitor_memory_used_ratio Memory usage ratio\n# TYPE nginx_monitor_memory_used_ratio gauge\n")
      ∷ (memory_calls
          ++ (append (
                codes
                  "# HELP nginx_monitor_latency_p95_ms Estimated p95 request latency\n# TYPE nginx_monitor_latency_p95_ms gauge\n")
              ∷ printf (
                  lit "nginx_monitor_latency_p95_ms "
                  ∷ real 3 (of_word (percentile scaled sh.requests.latency_bucket 95))
                  ∷ lit "\n"
                  ∷ [])
              ∷ []))

module _ {Double : Type 0} where
  unfoldable pub health_document : Process → ShCtx Double → List (Call Double)
  unfolding json_header
  health_document p sh =
      json_header p "health"
      ++ (printf (
            lit ",\"status\":\"ok\",\"generation\":"
            ∷ num sh.generation
            ∷ lit ",\"sse_clients\":"
            ∷ num sh.connections.sse_clients
            ∷ lit "}\n"
            ∷ [])
          ∷ [])

  module _ (ngx : Nginx) where
    -- A header that cannot be pushed is left out.
    unfoldable pub add_no_store : Exchange Double → Exchange Double
    unfolding push_header
    add_no_store x =
        let y = (push_header ngx (codes "Cache-Control") (codes "no-store") x).1 in
        (push_header ngx (codes "X-Content-Type-Options") (codes "nosniff") y).1

    unfoldable pub send_buffer : List ℕ → List ℕ → Request → Exchange Double → Rc × Exchange Double
    unfolding add_no_store send_header
    send_buffer body type r x =
        let y = add_no_store (log_sent ngx discard_body x) in
        let filled = record y {
          out = record y.out {
            status = 200;
            content_length_n = pos (length body);
            content_type = type;
          };
        } in
        let headed = (send_header ngx filled).1 in
        if r.method == ngx.bits.head
        then send_header ngx (record filled { out = record filled.out { header_only = true } })
        else (ngx.output_filter headed.out body, log_sent ngx (send_body body) headed)

    module _ (digits : Digits Double) (hex : ℕ → List ℕ) where
      -- The buffer of `size` bytes is written, and sent if the writer has not failed.
      unfoldable pub write_and_send :
          ℕ → List ℕ → List (Call Double) → Request → Exchange Double → Rc × Exchange Double
      unfolding send_buffer
      write_and_send size type document r x =
          let jw =
            calls digits hex (record { size = size; written = []; failed = false }) document in
          if jw.failed then (internal_error, x) else send_buffer jw.written type r x

      -- What the three functions begin with. `document` is given the zone and whether the two
      -- allocations behind that of the buffer succeed; `more` is how many of them are made.
      abbrev pub send_document :
          ℕ
          → List ℕ
          → ℕ
          → (ShCtx Double → Bool → Bool → List (Call Double))
          → Request
          → Exchange Double
          → Option (ShCtx Double)
          → Rc × Exchange Double
      send_document size type more document r x none = (service_unavailable, x)
      send_document size type more document r x (some sh) =
          let n = x.allocations in
          let passed = record x { allocations = n + 1 + more } in
          let calls = document sh (ngx.can_alloc (n + 1)) (ngx.can_alloc (n + 2)) in
          if allocates ngx x
          then write_and_send size type calls r passed
          else (internal_error, record x { allocations = n + 1 })

-- The views are allocated for these documents.
abbrev pub view_count : Endpoint → ℕ
view_count api_full = 2
view_count api_requests = 2
view_count _ = 0

module _ {Double : Type 0} (ops : DoubleOps Double) (scaled : ℕ → ℕ → ℕ)
    (cpystrn : List ℕ → List ℕ → ℕ → List ℕ) (z : HistorySample Double) (ngx : Nginx)
    (digits : Digits Double) (hex : ℕ → List ℕ) (p : Process) where
  unfoldable pub send_json : Endpoint → Request → Exchange Double → Rc × Exchange Double
  unfolding write_and_send json_document
  send_json endpoint r x =
      send_document ngx digits hex 524288 (codes "application/json") (view_count endpoint)
        (λ sh urls agents. json_document ops scaled cpystrn z sh urls agents p endpoint) r x x.zone

  unfoldable pub send_prometheus : Request → Exchange Double → Rc × Exchange Double
  unfolding write_and_send prometheus_document
  send_prometheus r x =
      send_document ngx digits hex 131072 (codes "text/plain") 0
        (λ sh urls agents. prometheus_document ops scaled sh) r x x.zone

  unfoldable pub send_health : Request → Exchange Double → Rc × Exchange Double
  unfolding write_and_send health_document
  send_health r x =
      send_document ngx digits hex 4096 (codes "application/json") 0
        (λ sh urls agents. health_document p sh) r x x.zone
