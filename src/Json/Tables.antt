-- ===== src/Json/Tables.antt =====
-- The arrays of the documents of src/ngx_http_monitoring_json.c: for each function the calls of the
-- writer that it makes, in their order.
use ngx_http_monitoring_modu.Prelude.{
  ℕ, ◌+◌, List, [], ◌∷◌, ◌++◌, Bool, not, codes, map, min, take, bit_and, ltb, ◌==◌, if◌then◌else◌,
}
use ngx_http_monitoring_modu.State.{
  ShCtx, IfaceMetric, DiskMetric, FsMetric, WorkerMetric, HistorySample, ifaces_max, disks_max,
  filesystems_max, history_max,
}
use ngx_http_monitoring_modu.Upstream.{UpstreamEntry}
use ngx_http_monitoring_modu.History.{DoubleOps, sum_by, json_history}
use ngx_http_monitoring_modu.Format.{lit, num, real, str}
use ngx_http_monitoring_modu.Collect.Libc.{c_string}
use ngx_http_monitoring_modu.Json.Call.{Call, append, printf, string}

-- A comma before each row but the first.
abbrev pub behind_comma : {Double : Type 0} → List (List (Call Double)) → List (Call Double)
behind_comma [] = []
behind_comma (row ∷ rows) = append (codes ",") ∷ (row ++ behind_comma rows)

abbrev pub separated : {Double : Type 0} → List (List (Call Double)) → List (Call Double)
separated [] = []
separated (row ∷ rows) = row ++ behind_comma rows

abbrev pub bool_text : Bool → List ℕ
bool_text b = if b then codes "true" else codes "false"

-- `i` is the slot of the first worker. A slot without a process is left out.
abbrev pub worker_rows : {Double : Type 0} → ℕ → List WorkerMetric → List (List (Call Double))
worker_rows i [] = []
worker_rows i (w ∷ workers) =
    let rows = worker_rows (i + 1) workers in
    if w.pid == 0
    then rows
    else (printf (
          lit "{\"slot\":"
          ∷ num i
          ∷ lit ",\"pid\":"
          ∷ num w.pid
          ∷ lit ",\"active\":"
          ∷ str (bool_text (not (w.active == 0)))
          ∷ lit ",\"requests\":"
          ∷ num w.requests
          ∷ lit ",\"bytes\":"
          ∷ num w.bytes
          ∷ lit ",\"errors\":"
          ∷ num w.errors
          ∷ lit ",\"vm_size\":"
          ∷ num w.vm_size
          ∷ lit ",\"vm_rss\":"
          ∷ num w.vm_rss
          ∷ lit ",\"voluntary_ctxt\":"
          ∷ num w.voluntary_ctxt
          ∷ lit ",\"nonvoluntary_ctxt\":"
          ∷ num w.nonvoluntary_ctxt
          ∷ lit ",\"last_seen\":"
          ∷ num w.last_seen
          ∷ lit "}"
          ∷ [])
        ∷ [])
      ∷ rows

unfoldable pub json_workers : {Double : Type 0} → List WorkerMetric → List (Call Double)
json_workers workers =
    append (codes "[") ∷ (separated (worker_rows 0 workers) ++ (append (codes "]") ∷ []))

module _ {Double : Type 0} where
  -- IFF_UP is 1.
  unfoldable pub iface_row : IfaceMetric → List (Call Double)
  iface_row f =
      append (codes "{\"name\":")
      ∷ string (c_string f.name)
      ∷ printf (
          lit ",\"rx_bytes\":"
          ∷ num f.rx_bytes
          ∷ lit ",\"tx_bytes\":"
          ∷ num f.tx_bytes
          ∷ lit ",\"rx_packets\":"
          ∷ num f.rx_packets
          ∷ lit ",\"tx_packets\":"
          ∷ num f.tx_packets
          ∷ lit ",\"rx_errors\":"
          ∷ num f.rx_errors
          ∷ lit ",\"tx_errors\":"
          ∷ num f.tx_errors
          ∷ lit ",\"up\":"
          ∷ str (bool_text (not (bit_and f.flags 1 == 0)))
          ∷ lit "}"
          ∷ [])
      ∷ []

  unfoldable pub json_network : ShCtx Double → List (Call Double)
  unfolding iface_row
  json_network sh =
      let ifaces = take (min sh.iface_count ifaces_max) sh.ifaces in
      printf (
        lit "{\"rx_bytes\":"
        ∷ num (sum_by (λ f. f.rx_bytes) 0 ifaces)
        ∷ lit ",\"tx_bytes\":"
        ∷ num (sum_by (λ f. f.tx_bytes) 0 ifaces)
        ∷ lit ",\"rx_packets\":"
        ∷ num (sum_by (λ f. f.rx_packets) 0 ifaces)
        ∷ lit ",\"tx_packets\":"
        ∷ num (sum_by (λ f. f.tx_packets) 0 ifaces)
        ∷ lit ",\"rx_errors\":"
        ∷ num (sum_by (λ f. f.rx_errors) 0 ifaces)
        ∷ lit ",\"tx_errors\":"
        ∷ num (sum_by (λ f. f.tx_errors) 0 ifaces)
        ∷ lit ",\"interfaces\":["
        ∷ [])
      ∷ (separated (map iface_row ifaces) ++ (append (codes "]}") ∷ []))

  unfoldable pub disk_row : DiskMetric → List (Call Double)
  disk_row d =
      append (codes "{\"name\":")
      ∷ string (c_string d.name)
      ∷ printf (
          lit ",\"reads\":"
          ∷ num d.reads
          ∷ lit ",\"writes\":"
          ∷ num d.writes
          ∷ lit ",\"read_bytes\":"
          ∷ num d.read_bytes
          ∷ lit ",\"write_bytes\":"
          ∷ num d.write_bytes
          ∷ lit ",\"io_ms\":"
          ∷ num d.io_ms
          ∷ lit "}"
          ∷ [])
      ∷ []

  unfoldable pub filesystem_row : FsMetric → List (Call Double)
  filesystem_row f =
      append (codes "{\"path\":")
      ∷ string (c_string f.path)
      ∷ append (codes ",\"type\":")
      ∷ string (c_string f.type)
      ∷ printf (
          lit ",\"total\":"
          ∷ num f.total
          ∷ lit ",\"used\":"
          ∷ num f.used
          ∷ lit ",\"free\":"
          ∷ num f.free
          ∷ lit ",\"avail\":"
          ∷ num f.avail
          ∷ lit ",\"files\":"
          ∷ num f.files
          ∷ lit ",\"files_free\":"
          ∷ num f.files_free
          ∷ lit "}"
          ∷ [])
      ∷ []

  unfoldable pub json_disk : ShCtx Double → List (Call Double)
  unfolding disk_row filesystem_row
  json_disk sh =
      let disks = take (min sh.disk_count disks_max) sh.disks in
      let mounted = take (min sh.fs_count filesystems_max) sh.filesystems in
      printf (
        lit "{\"reads\":"
        ∷ num (sum_by (λ d. d.reads) 0 disks)
        ∷ lit ",\"writes\":"
        ∷ num (sum_by (λ d. d.writes) 0 disks)
        ∷ lit ",\"read_bytes\":"
        ∷ num (sum_by (λ d. d.read_bytes) 0 disks)
        ∷ lit ",\"write_bytes\":"
        ∷ num (sum_by (λ d. d.write_bytes) 0 disks)
        ∷ lit ",\"devices\":["
        ∷ [])
      ∷ (separated (map disk_row disks)
          ++ (append (codes "],\"filesystems\":[")
              ∷ (separated (map filesystem_row mounted) ++ (append (codes "]}") ∷ []))))

  unfoldable pub sample_row : HistorySample Double → List (Call Double)
  sample_row s =
      printf (
        lit "{\"timestamp\":"
        ∷ num s.timestamp
        ∷ lit ",\"cpu\":"
        ∷ real 3 s.cpu_usage
        ∷ lit ",\"memory\":"
        ∷ real 3 s.memory_used_pct
        ∷ lit ",\"swap\":"
        ∷ real 3 s.swap_used_pct
        ∷ lit ",\"rps\":"
        ∷ real 3 s.requests_per_sec
        ∷ lit ",\"responses_per_sec\":"
        ∷ real 3 s.responses_per_sec
        ∷ lit ",\"network_rx_per_sec\":"
        ∷ real 3 s.network_rx_per_sec
        ∷ lit ",\"network_tx_per_sec\":"
        ∷ real 3 s.network_tx_per_sec
        ∷ lit ",\"disk_read_per_sec\":"
        ∷ real 3 s.disk_read_per_sec
        ∷ lit ",\"disk_write_per_sec\":"
        ∷ real 3 s.disk_write_per_sec
        ∷ lit ",\"latency_p95\":"
        ∷ real 3 s.latency_p95
        ∷ lit ",\"requests_total\":"
        ∷ num s.requests_total
        ∷ lit ",\"status_4xx\":"
        ∷ num s.status_4xx
        ∷ lit ",\"status_5xx\":"
        ∷ num s.status_5xx
        ∷ lit "}"
        ∷ [])
      ∷ []

  -- `z` stands for a read outside the array.
  unfoldable pub history_calls : HistorySample Double → ShCtx Double → List (Call Double)
  unfolding sample_row json_history
  history_calls z sh =
      if min sh.history_capacity history_max == 0
      then append (codes "[]") ∷ []
      else append (codes "[")
        ∷ (separated (map sample_row (json_history z sh)) ++ (append (codes "]") ∷ []))

module _ {Double : Type 0} (ops : DoubleOps Double) where
  open ops use {of_word, over}

  -- The mean, 0 of nothing.
  abbrev pub mean : ℕ → ℕ → Double
  mean total n = if ltb 0 n then over (of_word total) (of_word n) else of_word 0

  unfoldable pub upstream_row : UpstreamEntry → List (Call Double)
  upstream_row u =
      append (codes "{\"peer\":")
      ∷ string (c_string u.peer)
      ∷ printf (
          lit ",\"requests\":"
          ∷ num u.requests
          ∷ lit ",\"failures\":"
          ∷ num u.failures
          ∷ lit ",\"status_4xx\":"
          ∷ num u.status_4xx
          ∷ lit ",\"status_5xx\":"
          ∷ num u.status_5xx
          ∷ lit ",\"avg_latency\":"
          ∷ real 3 (mean u.latency_ms_total u.requests)
          ∷ lit ",\"last_seen\":"
          ∷ num u.last_seen
          ∷ lit "}"
          ∷ [])
      ∷ []

  -- A peer without a request is left out.
  abbrev pub upstream_rows : List UpstreamEntry → List (List (Call Double))
  upstream_rows [] = []
  upstream_rows (u ∷ upstreams) =
      let rows = upstream_rows upstreams in if u.requests == 0 then rows else upstream_row u ∷ rows

  unfoldable pub json_upstreams : ShCtx Double → List (Call Double)
  unfolding upstream_row
  json_upstreams sh =
      append (codes "[") ∷ (separated (upstream_rows sh.upstreams) ++ (append (codes "]") ∷ []))
