-- ===== src/Sse/Payload.antt =====
-- The text of an event: `ngx_http_monitoring_sse_payload` with its sums
-- (src/ngx_http_monitoring_sse.c).
use ngx_http_monitoring_modu.Prelude.{
  ℕ, Bool, true, false, List, [], ◌∷◌, ◌++◌, take, min, sub_word, ltb, if◌then◌else◌,
}
use ngx_http_monitoring_modu.State.{ShCtx, ifaces_max, disks_max}
use ngx_http_monitoring_modu.Http.{Process}
use ngx_http_monitoring_modu.Metrics.Percentile.{percentile}
use ngx_http_monitoring_modu.History.{DoubleOps, sum_by}
use ngx_http_monitoring_modu.Format.{Piece, lit, num, real, Digits, render}

module _ {Double : Type 0} where
  unfoldable pub sse_sum_net : ShCtx Double → Bool → ℕ
  sse_sum_net sh tx =
      sum_by (λ i. if tx then i.tx_bytes else i.rx_bytes) 0
        (take (min sh.iface_count ifaces_max) sh.ifaces)

  unfoldable pub sse_sum_disk : ShCtx Double → Bool → ℕ
  sse_sum_disk sh write =
      sum_by (λ d. if write then d.write_bytes else d.read_bytes) 0
        (take (min sh.disk_count disks_max) sh.disks)

module _ {Double : Type 0} (ops : DoubleOps Double) (scaled : ℕ → ℕ → ℕ) (digits : Digits Double)
    (p : Process) where
  open ops use {of_word, times, over}

  abbrev mem_pct : ShCtx Double → Double
  mem_pct sh =
      let total = sh.system.mem_total in
      if ltb 0 total
      then over (times (of_word (sub_word total sh.system.mem_available)) (of_word 100))
          (of_word total)
      else of_word 0

  abbrev thousandths : ℕ → Piece Double
  thousandths x = real 3 (over (of_word x) (of_word 1000))

  unfoldable pub sse_payload : ℕ → ShCtx Double → List (Piece Double)
  unfolding sse_sum_net sse_sum_disk percentile
  sse_payload sequence sh =
      lit "id: "
      ∷ num sequence
      ∷ lit "\nevent: metrics\ndata: {\"version\":"
      ∷ num 1
      ∷ lit ",\"timestamp\":"
      ∷ num p.sec
      ∷ lit ",\"sequence\":"
      ∷ num sequence
      ∷ lit ",\"system\":{\"cpu\":{\"usage\":"
      ∷ thousandths sh.system.usage_milli
      ∷ lit ",\"cores\":"
      ∷ num sh.system.cores
      ∷ lit "},\"memory\":{\"used_pct\":"
      ∷ real 3 (mem_pct sh)
      ∷ lit ",\"total\":"
      ∷ num sh.system.mem_total
      ∷ lit ",\"available\":"
      ∷ num sh.system.mem_available
      ∷ lit "}},\"requests\":{\"total\":"
      ∷ num sh.requests.total
      ∷ lit ",\"requests_per_sec\":"
      ∷ thousandths sh.ewma_rps_milli
      ∷ lit ",\"responses_per_sec\":"
      ∷ thousandths sh.ewma_resp_milli
      ∷ lit ",\"latency\":{\"p95\":"
      ∷ real 3 (of_word (percentile scaled sh.requests.latency_bucket 95))
      ∷ lit ",\"p99\":"
      ∷ real 3 (of_word (percentile scaled sh.requests.latency_bucket 99))
      ∷ lit "},\"status\":{\"4xx\":"
      ∷ num sh.requests.status_4xx
      ∷ lit ",\"5xx\":"
      ∷ num sh.requests.status_5xx
      ∷ lit "}},\"connections\":{\"active\":"
      ∷ num sh.connections.active
      ∷ lit ",\"reading\":"
      ∷ num sh.connections.reading
      ∷ lit ",\"writing\":"
      ∷ num sh.connections.writing
      ∷ lit ",\"waiting\":"
      ∷ num sh.connections.waiting
      ∷ lit ",\"sse_clients\":"
      ∷ num sh.connections.sse_clients
      ∷ lit ",\"keepalive_requests\":"
      ∷ num sh.connections.keepalive_requests
      ∷ lit "},\"network\":{\"rx_bytes\":"
      ∷ num (sse_sum_net sh false)
      ∷ lit ",\"tx_bytes\":"
      ∷ num (sse_sum_net sh true)
      ∷ lit "},\"disk\":{\"read_bytes\":"
      ∷ num (sse_sum_disk sh false)
      ∷ lit ",\"write_bytes\":"
      ∷ num (sse_sum_disk sh true)
      ∷ lit "}}\n\n"
      ∷ []

  -- The heartbeat and the payload.
  unfoldable pub sse_text : ℕ → ShCtx Double → List ℕ
  unfolding sse_payload render
  sse_text sequence sh =
      render digits (lit "retry: 3000\n: heartbeat " ∷ num sequence ∷ lit "\n" ∷ [])
      ++ render digits (sse_payload sequence sh)
