-- ===== src/Json/Send/Steady.antt =====
-- Which documents of src/ngx_http_monitoring_json.c are given up for want of memory.
use ngx_http_monitoring_modu.Prelude.{
  ℕ, ◌+◌, ◌≡◌, refl, true, false, List, [], ◌∷◌, ◌++◌, map, min, take, All, subst, sym,
  if◌then◌else◌, String, codes, ◌==◌, Bool-cases, inl, inr,
}
use ngx_http_monitoring_modu.State.{
  ShCtx, WorkerMetric, HistorySample, IfaceMetric, DiskMetric, FsMetric, ifaces_max, disks_max,
  filesystems_max, history_max,
}
use ngx_http_monitoring_modu.Upstream.{UpstreamEntry}
use ngx_http_monitoring_modu.Top.{TopEntry}
use ngx_http_monitoring_modu.History.{DoubleOps, json_history}
use ngx_http_monitoring_modu.Metrics.Buckets.{latency_bounds, size_bounds}
use ngx_http_monitoring_modu.Format.{Digits}
use ngx_http_monitoring_modu.Json.Call.{Call, append, printf, string, give_up}
use ngx_http_monitoring_modu.Json.Call.Completes.{gives_up}
use ngx_http_monitoring_modu.Json.Tables.{
  behind_comma, separated, worker_rows, json_workers, iface_row, json_network, disk_row,
  filesystem_row, json_disk, sample_row, history_calls, upstream_row, upstream_rows, json_upstreams,
}
use ngx_http_monitoring_modu.Json.Documents.{json_processes, json_nginx}
use ngx_http_monitoring_modu.Json.Top.{TopView, top_row, json_top_entries, sort_top, views}
use ngx_http_monitoring_modu.Json.Requests.{method_names, method_rows, bucket_rows, json_requests}

module _ {Double : Type 0} (digits : Digits Double) (hex : ℕ → List ℕ) where
  abbrev pub IsSteady : List (Call Double) → Type 0
  IsSteady cs = gives_up digits hex cs ≡ false

  pub append-IsSteady :
      (xs ys : List (Call Double)) → IsSteady xs → IsSteady ys → IsSteady (xs ++ ys)
  append-IsSteady [] ys h k = k
  append-IsSteady (append s ∷ xs) ys h k = append-IsSteady xs ys h k
  append-IsSteady (printf s ∷ xs) ys h k = append-IsSteady xs ys h k
  append-IsSteady (string s ∷ xs) ys h k = append-IsSteady xs ys h k
  append-IsSteady (give_up ∷ xs) ys h k = cc

  behind_comma-IsSteady :
      (rows : List (List (Call Double))) → All IsSteady rows → IsSteady (behind_comma rows)
  behind_comma-IsSteady [] a = refl
  behind_comma-IsSteady (row ∷ rows) a =
      append-IsSteady row (behind_comma rows) a.0 (behind_comma-IsSteady rows a.1)

  separated-IsSteady :
      (rows : List (List (Call Double))) → All IsSteady rows → IsSteady (separated rows)
  separated-IsSteady [] a = refl
  separated-IsSteady (row ∷ rows) a =
      append-IsSteady row (behind_comma rows) a.0 (behind_comma-IsSteady rows a.1)

  -- Rows with something behind them.
  closed-IsSteady :
      (rows : List (List (Call Double))) (rest : List (Call Double))
      → All IsSteady rows
      → IsSteady rest
      → IsSteady (separated rows ++ rest)
  closed-IsSteady rows rest a h =
      append-IsSteady (separated rows) rest (separated-IsSteady rows a) h

  map-IsSteady :
      {A : Type 0} (f : A → List (Call Double)) (xs : List A)
      → ((x : A) → IsSteady (f x))
      → All IsSteady (map f xs)
  map-IsSteady f [] h = tt
  map-IsSteady f (x ∷ xs) h = (h x, map-IsSteady f xs h)

  worker_rows-IsSteady :
      (i : ℕ) (workers : List WorkerMetric) → All IsSteady (worker_rows {Double = Double} i workers)
  worker_rows-IsSteady i [] = tt
  worker_rows-IsSteady i (w ∷ workers) = elim (Bool-cases (w.pid == 0)) [
    | inl b ↦ rw (b) (worker_rows-IsSteady (i + 1) workers)
    | inr b ↦ rw (b) (refl, worker_rows-IsSteady (i + 1) workers)
  ]

  json_workers-IsSteady :
      (workers : List WorkerMetric) (rest : List (Call Double))
      → IsSteady rest
      → IsSteady (json_workers workers ++ rest)
  unfolding json_workers
  json_workers-IsSteady workers rest h =
      append-IsSteady (json_workers workers) rest
        (closed-IsSteady (worker_rows 0 workers) (append (codes "]") ∷ [])
          (worker_rows-IsSteady 0 workers) refl)
        h

  iface_row-IsSteady : (f : IfaceMetric) → IsSteady (iface_row f)
  unfolding iface_row
  iface_row-IsSteady f = refl

  disk_row-IsSteady : (d : DiskMetric) → IsSteady (disk_row d)
  unfolding disk_row
  disk_row-IsSteady d = refl

  filesystem_row-IsSteady : (f : FsMetric) → IsSteady (filesystem_row f)
  unfolding filesystem_row
  filesystem_row-IsSteady f = refl

  sample_row-IsSteady : (s : HistorySample Double) → IsSteady (sample_row s)
  unfolding sample_row
  sample_row-IsSteady s = refl

  top_row-IsSteady :
      (ops : DoubleOps Double) (cpystrn : List ℕ → List ℕ → ℕ → List ℕ) (key_name : String)
      (v : TopView)
      → IsSteady (top_row ops cpystrn key_name v)
  unfolding top_row
  top_row-IsSteady ops cpystrn key_name v = refl

  method_rows-IsSteady :
      (names : List String) (counts : List ℕ) → All IsSteady (method_rows names counts)
  method_rows-IsSteady [] counts = tt
  method_rows-IsSteady (name ∷ names) [] = tt
  method_rows-IsSteady (name ∷ names) (n ∷ counts) = (refl, method_rows-IsSteady names counts)

  bucket_rows-IsSteady : (bounds counts : List ℕ) → All IsSteady (bucket_rows bounds counts)
  bucket_rows-IsSteady [] [] = tt
  bucket_rows-IsSteady (b ∷ bounds) [] = tt
  bucket_rows-IsSteady [] (n ∷ counts) = (refl, bucket_rows-IsSteady [] counts)
  bucket_rows-IsSteady (b ∷ bounds) (n ∷ counts) = (refl, bucket_rows-IsSteady bounds counts)

  module _ (sh : ShCtx Double) where
    pub json_network-IsSteady : IsSteady (json_network sh)
    unfolding json_network
    json_network-IsSteady =
        let ifaces = take (min sh.iface_count ifaces_max) sh.ifaces in
        closed-IsSteady (map iface_row ifaces) (append (codes "]}") ∷ [])
          (map-IsSteady iface_row ifaces iface_row-IsSteady) refl

    pub json_disk-IsSteady : IsSteady (json_disk sh)
    unfolding json_disk
    json_disk-IsSteady =
        let disks = take (min sh.disk_count disks_max) sh.disks in
        let mounted = take (min sh.fs_count filesystems_max) sh.filesystems in
        closed-IsSteady (map disk_row disks)
          (append (codes "],\"filesystems\":[")
            ∷ (separated (map filesystem_row mounted) ++ (append (codes "]}") ∷ [])))
          (map-IsSteady disk_row disks disk_row-IsSteady)
          (closed-IsSteady (map filesystem_row mounted) (append (codes "]}") ∷ [])
            (map-IsSteady filesystem_row mounted filesystem_row-IsSteady) refl)

    pub history_calls-IsSteady : (z : HistorySample Double) → IsSteady (history_calls z sh)
    unfolding history_calls
    history_calls-IsSteady z = elim (Bool-cases (min sh.history_capacity history_max == 0)) [
      | inl b ↦ rw (b) refl
      | inr b ↦
          let samples = json_history z sh in
          let calls : List (Call Double) =
            append (codes "[")
            ∷ (separated (map sample_row samples) ++ (append (codes "]") ∷ [])) in
          subst (λ t. IsSteady (if t then append (codes "[]") ∷ [] else calls)) (sym b)
            (closed-IsSteady (map sample_row samples) (append (codes "]") ∷ [])
              (map-IsSteady sample_row samples sample_row-IsSteady) refl)
    ]

    module _ (ops : DoubleOps Double) where
      upstream_rows-IsSteady :
          (upstreams : List UpstreamEntry) → All IsSteady (upstream_rows ops upstreams)
      unfolding upstream_row
      upstream_rows-IsSteady [] = tt
      upstream_rows-IsSteady (u ∷ upstreams) = elim (Bool-cases (u.requests == 0)) [
        | inl b ↦ rw (b) (upstream_rows-IsSteady upstreams)
        | inr b ↦ rw (b) (refl, upstream_rows-IsSteady upstreams)
      ]

      pub json_upstreams-IsSteady : IsSteady (json_upstreams ops sh)
      unfolding json_upstreams
      json_upstreams-IsSteady =
          closed-IsSteady (upstream_rows ops sh.upstreams) (append (codes "]") ∷ [])
            (upstream_rows-IsSteady sh.upstreams) refl

      pub json_processes-IsSteady : IsSteady (json_processes ops sh)
      unfolding json_processes
      json_processes-IsSteady = json_workers-IsSteady sh.workers (append (codes "}") ∷ []) refl

      pub json_nginx-IsSteady : IsSteady (json_nginx ops sh)
      unfolding json_nginx
      json_nginx-IsSteady = json_workers-IsSteady sh.workers (append (codes "}") ∷ []) refl

      module _ (scaled : ℕ → ℕ → ℕ) (cpystrn : List ℕ → List ℕ → ℕ → List ℕ) where
        json_top_entries-IsSteady :
            (entries : List TopEntry) (key_name : String) (rest : List (Call Double))
            → IsSteady rest
            → IsSteady (json_top_entries ops cpystrn true entries key_name ++ rest)
        unfolding json_top_entries
        json_top_entries-IsSteady entries key_name rest h =
            let sorted = sort_top (views cpystrn entries) in
            append-IsSteady (json_top_entries ops cpystrn true entries key_name) rest
              (closed-IsSteady (map (top_row ops cpystrn key_name) sorted) (append (codes "]") ∷ [])
                (map-IsSteady (top_row ops cpystrn key_name) sorted
                  (top_row-IsSteady ops cpystrn key_name))
                refl)
              h

        pub json_requests-IsSteady : IsSteady (json_requests ops scaled cpystrn sh true true)
        unfolding json_requests
        json_requests-IsSteady =
            let agents : List (Call Double) = append (codes "}") ∷ [] in
            let top : List (Call Double) =
              append (codes ",\"user_agents\":")
              ∷ (json_top_entries ops cpystrn true sh.user_agents "user_agent" ++ agents) in
            let urls : List (Call Double) =
              append (codes "],\"top_urls\":")
              ∷ (json_top_entries ops cpystrn true sh.urls "url" ++ top) in
            let sizes : List (Call Double) =
              append (codes "],\"size_histogram\":[")
              ∷ (separated (bucket_rows size_bounds sh.requests.size_bucket) ++ urls) in
            let latencies : List (Call Double) =
              append (codes "},\"latency_histogram\":[")
              ∷ (separated (bucket_rows latency_bounds sh.requests.latency_bucket) ++ sizes) in
            closed-IsSteady (method_rows method_names sh.requests.method) latencies
              (method_rows-IsSteady method_names sh.requests.method)
              (closed-IsSteady (bucket_rows latency_bounds sh.requests.latency_bucket) sizes
                (bucket_rows-IsSteady latency_bounds sh.requests.latency_bucket)
                (closed-IsSteady (bucket_rows size_bounds sh.requests.size_bucket) urls
                  (bucket_rows-IsSteady size_bounds sh.requests.size_bucket)
                  (json_top_entries-IsSteady sh.urls "url" top
                    (json_top_entries-IsSteady sh.user_agents "user_agent" agents refl))))
