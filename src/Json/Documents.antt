-- ===== src/Json/Documents.antt =====
-- The documents of src/ngx_http_monitoring_json.c without loops over tables of their own: for each
-- function the calls of the writer that it makes, in their order.
use ngx_http_monitoring_modu.Prelude.{
  ℕ, List, [], ◌∷◌, ◌++◌, String, codes, sub_word, ltb, if◌then◌else◌,
}
use ngx_http_monitoring_modu.State.{ShCtx}
use ngx_http_monitoring_modu.Http.{Process}
use ngx_http_monitoring_modu.History.{DoubleOps}
use ngx_http_monitoring_modu.Format.{lit, num, real, str}
use ngx_http_monitoring_modu.Json.Call.{Call, append, printf}
use ngx_http_monitoring_modu.Json.Tables.{json_workers}

module _ {Double : Type 0} (p : Process) where
  unfoldable pub json_header : String → List (Call Double)
  json_header scope =
      printf (
        lit "{\"version\":"
        ∷ num 1
        ∷ lit ",\"module\":\""
        ∷ str (codes "1.0.0")
        ∷ lit "\",\"timestamp\":"
        ∷ num p.sec
        ∷ lit ",\"msec\":"
        ∷ num p.msec
        ∷ lit ",\"scope\":\""
        ∷ str (codes scope)
        ∷ lit "\",\"pid\":"
        ∷ num p.pid
        ∷ [])
      ∷ []

module _ {Double : Type 0} (ops : DoubleOps Double) where
  open ops use {of_word, times, over}

  abbrev pub thousandth : ℕ → Double
  thousandth x = over (of_word x) (of_word 1000)

  -- `part` of `total` in percent, 0 without a total.
  abbrev pub percent_of : ℕ → ℕ → Double
  percent_of total part =
      if ltb 0 total then over (times (of_word part) (of_word 100)) (of_word total) else of_word 0

  module _ (sh : ShCtx Double) where
    abbrev mem_used : Double
    mem_used =
        let used = sub_word sh.system.mem_total sh.system.mem_available in
        if ltb 0 sh.system.mem_total then of_word used else of_word 0

    unfoldable pub json_system : List (Call Double)
    json_system =
        printf (
          lit "{\"cpu\":{\"usage\":"
          ∷ real 3 (thousandth sh.system.usage_milli)
          ∷ lit ",\"cores\":"
          ∷ num sh.system.cores
          ∷ lit ",\"load\":["
          ∷ real 3 (thousandth sh.system.load1_milli)
          ∷ lit ","
          ∷ real 3 (thousandth sh.system.load5_milli)
          ∷ lit ","
          ∷ real 3 (thousandth sh.system.load15_milli)
          ∷ lit "]},\"memory\":{\"total\":"
          ∷ num sh.system.mem_total
          ∷ lit ",\"available\":"
          ∷ num sh.system.mem_available
          ∷ lit ",\"free\":"
          ∷ num sh.system.mem_free
          ∷ lit ",\"used\":"
          ∷ real 0 mem_used
          ∷ lit ",\"used_pct\":"
          ∷ real 3 (
              percent_of sh.system.mem_total (sub_word sh.system.mem_total sh.system.mem_available))
          ∷ lit "},\"swap\":{\"total\":"
          ∷ num sh.system.swap_total
          ∷ lit ",\"free\":"
          ∷ num sh.system.swap_free
          ∷ lit ",\"used_pct\":"
          ∷ real 3
              (percent_of sh.system.swap_total (sub_word sh.system.swap_total sh.system.swap_free))
          ∷ lit "},\"uptime\":"
          ∷ num sh.system.uptime
          ∷ lit "}"
          ∷ [])
        ∷ []

    unfoldable pub json_processes : List (Call Double)
    unfolding json_workers
    json_processes =
        printf (
          lit "{\"process_count\":"
          ∷ num sh.system.process_count
          ∷ lit ",\"tcp\":{\"established\":"
          ∷ num sh.system.tcp_established
          ∷ lit ",\"listen\":"
          ∷ num sh.system.tcp_listen
          ∷ lit "},\"sockets\":{\"used\":"
          ∷ num sh.system.sockets_used
          ∷ lit ",\"tcp\":"
          ∷ num sh.system.sockets_tcp
          ∷ lit ",\"udp\":"
          ∷ num sh.system.sockets_udp
          ∷ lit "},\"workers\":"
          ∷ [])
        ∷ (json_workers sh.workers ++ (append (codes "}") ∷ []))

    unfoldable pub json_nginx : List (Call Double)
    unfolding json_workers
    json_nginx =
        printf (
          lit "{\"connections\":{\"accepted\":"
          ∷ num sh.connections.accepted
          ∷ lit ",\"handled\":"
          ∷ num sh.connections.handled
          ∷ lit ",\"active\":"
          ∷ num sh.connections.active
          ∷ lit ",\"reading\":"
          ∷ num sh.connections.reading
          ∷ lit ",\"writing\":"
          ∷ num sh.connections.writing
          ∷ lit ",\"waiting\":"
          ∷ num sh.connections.waiting
          ∷ lit "},\"requests\":{\"total\":"
          ∷ num sh.requests.total
          ∷ lit ",\"responses\":"
          ∷ num sh.requests.responses
          ∷ lit ",\"requests_per_sec\":"
          ∷ real 3 (thousandth sh.ewma_rps_milli)
          ∷ lit ",\"responses_per_sec\":"
          ∷ real 3 (thousandth sh.ewma_resp_milli)
          ∷ lit "},\"ssl\":{\"requests\":"
          ∷ num sh.connections.ssl_requests
          ∷ lit ",\"handshakes\":"
          ∷ num sh.connections.ssl_handshakes
          ∷ lit "},\"keepalive\":{\"requests\":"
          ∷ num sh.connections.keepalive_requests
          ∷ lit "},\"workers\":"
          ∷ [])
        ∷ (json_workers sh.workers ++ (append (codes "}") ∷ []))

    unfoldable pub json_connections : List (Call Double)
    json_connections =
        printf (
          lit "{\"accepted\":"
          ∷ num sh.connections.accepted
          ∷ lit ",\"handled\":"
          ∷ num sh.connections.handled
          ∷ lit ",\"active\":"
          ∷ num sh.connections.active
          ∷ lit ",\"reading\":"
          ∷ num sh.connections.reading
          ∷ lit ",\"writing\":"
          ∷ num sh.connections.writing
          ∷ lit ",\"waiting\":"
          ∷ num sh.connections.waiting
          ∷ lit ",\"ssl_requests\":"
          ∷ num sh.connections.ssl_requests
          ∷ lit ",\"ssl_handshakes\":"
          ∷ num sh.connections.ssl_handshakes
          ∷ lit ",\"keepalive_requests\":"
          ∷ num sh.connections.keepalive_requests
          ∷ lit ",\"sse_clients\":"
          ∷ num sh.connections.sse_clients
          ∷ lit ",\"sse_events\":"
          ∷ num sh.connections.sse_events
          ∷ lit ",\"rate_limited\":"
          ∷ num sh.connections.rate_limited
          ∷ lit "}"
          ∷ [])
        ∷ []
