-- ===== src/Json/Send/Given.antt =====
-- The documents of src/ngx_http_monitoring_json.c are given up only for want of memory.
use ngx_http_monitoring_modu.Prelude.{
  ℕ, ◌≡◌, refl, Bool, true, false, ◌&&◌, List, [], ◌∷◌, ◌++◌, codes, ◌==◌, if◌then◌else◌,
  Bool-cases, inl, inr, ltb,
}
use ngx_http_monitoring_modu.State.{ShCtx, HistorySample}
use ngx_http_monitoring_modu.Http.{Process}
use ngx_http_monitoring_modu.Endpoint.{
  Endpoint, ep_none, dashboard, live, prometheus, health, api_full, api_system, api_nginx,
  api_network, api_disk, api_processes, api_upstreams, api_connections, api_requests,
}
use ngx_http_monitoring_modu.History.{DoubleOps}
use ngx_http_monitoring_modu.Format.{Digits}
use ngx_http_monitoring_modu.Json.Call.{Call, append}
use ngx_http_monitoring_modu.Json.Tables.{json_network, json_disk, json_upstreams, history_calls}
use ngx_http_monitoring_modu.Json.Documents.{
  json_header, json_system, json_processes, json_nginx, json_connections,
}
use ngx_http_monitoring_modu.Json.Requests.{json_requests}
use ngx_http_monitoring_modu.Json.Send.{
  json_parts, json_document, prometheus_document, health_document, view_count,
}
use ngx_http_monitoring_modu.Json.Send.Steady.{
  IsSteady, append-IsSteady, json_network-IsSteady, json_disk-IsSteady, history_calls-IsSteady,
  json_upstreams-IsSteady, json_processes-IsSteady, json_nginx-IsSteady, json_requests-IsSteady,
}

-- Whether the memory for the views of the endpoint's document, if it has any, is there.
abbrev pub has_views : Endpoint → Bool → Bool → Bool
has_views endpoint urls agents = if view_count endpoint == 0 then true else urls && agents

module _ {Double : Type 0} (digits : Digits Double) (hex : ℕ → List ℕ) (ops : DoubleOps Double)
    (scaled : ℕ → ℕ → ℕ) where
  module _ (sh : ShCtx Double) where
    json_system-IsSteady : IsSteady digits hex (json_system ops sh)
    unfolding json_system
    json_system-IsSteady = refl

    json_connections-IsSteady : IsSteady digits hex (json_connections ops sh)
    unfolding json_connections
    json_connections-IsSteady = refl

    pub prometheus_document-IsSteady : IsSteady digits hex (prometheus_document ops scaled sh)
    unfolding prometheus_document
    prometheus_document-IsSteady = elim (Bool-cases (ltb 0 sh.system.mem_total)) [
      | inl b ↦ rw (b) refl
      | inr b ↦ rw (b) refl
    ]

    pub health_document-IsSteady : (p : Process) → IsSteady digits hex (health_document p sh)
    unfolding health_document json_header
    health_document-IsSteady p = refl

    module _ (cpystrn : List ℕ → List ℕ → ℕ → List ℕ) (z : HistorySample Double) where
      json_parts-IsSteady :
          (endpoint : Endpoint) (urls agents : Bool)
          → has_views endpoint urls agents ≡ true
          → IsSteady digits hex (json_parts ops scaled cpystrn z sh urls agents endpoint)
      unfolding json_parts
      json_parts-IsSteady api_full true true h =
          let after_requests : List (Call Double) =
            append (codes ",\"history\":") ∷ history_calls z sh in
          let after_connections : List (Call Double) =
            append (codes ",\"requests\":")
            ∷ (json_requests ops scaled cpystrn sh true true ++ after_requests) in
          let after_upstreams : List (Call Double) =
            append (codes ",\"connections\":") ∷ (json_connections ops sh ++ after_connections) in
          let after_processes : List (Call Double) =
            append (codes ",\"upstreams\":") ∷ (json_upstreams ops sh ++ after_upstreams) in
          let after_disk : List (Call Double) =
            append (codes ",\"processes\":") ∷ (json_processes ops sh ++ after_processes) in
          let after_network : List (Call Double) =
            append (codes ",\"disk\":") ∷ (json_disk sh ++ after_disk) in
          let after_nginx : List (Call Double) =
            append (codes ",\"network\":") ∷ (json_network sh ++ after_network) in
          let after_system : List (Call Double) =
            append (codes ",\"nginx\":") ∷ (json_nginx ops sh ++ after_nginx) in
          append-IsSteady digits hex (json_system ops sh) after_system (json_system-IsSteady) (
            append-IsSteady digits hex (json_nginx ops sh) after_nginx
              (json_nginx-IsSteady digits hex sh ops)
              (append-IsSteady digits hex (json_network sh) after_network
                (json_network-IsSteady digits hex sh)
                (append-IsSteady digits hex (json_disk sh) after_disk
                  (json_disk-IsSteady digits hex sh)
                  (append-IsSteady digits hex (json_processes ops sh) after_processes
                    (json_processes-IsSteady digits hex sh ops)
                    (append-IsSteady digits hex (json_upstreams ops sh) after_upstreams
                      (json_upstreams-IsSteady digits hex sh ops)
                      (append-IsSteady digits hex (json_connections ops sh) after_connections
                        (json_connections-IsSteady)
                        (append-IsSteady digits hex (json_requests ops scaled cpystrn sh true true)
                          after_requests (json_requests-IsSteady digits hex sh ops scaled cpystrn)
                          (history_calls-IsSteady digits hex sh z))))))))
      json_parts-IsSteady api_full true false h = cc
      json_parts-IsSteady api_full false agents h = cc
      json_parts-IsSteady api_requests true true h =
          (json_requests-IsSteady digits hex sh ops scaled cpystrn)
      json_parts-IsSteady api_requests true false h = cc
      json_parts-IsSteady api_requests false agents h = cc
      json_parts-IsSteady api_system urls agents h = (json_system-IsSteady)
      json_parts-IsSteady api_nginx urls agents h = (json_nginx-IsSteady digits hex sh ops)
      json_parts-IsSteady api_network urls agents h = (json_network-IsSteady digits hex sh)
      json_parts-IsSteady api_disk urls agents h = (json_disk-IsSteady digits hex sh)
      json_parts-IsSteady api_processes urls agents h = (json_processes-IsSteady digits hex sh ops)
      json_parts-IsSteady api_upstreams urls agents h = (json_upstreams-IsSteady digits hex sh ops)
      json_parts-IsSteady api_connections urls agents h = (json_connections-IsSteady)
      json_parts-IsSteady ep_none urls agents h = refl
      json_parts-IsSteady dashboard urls agents h = refl
      json_parts-IsSteady live urls agents h = refl
      json_parts-IsSteady prometheus urls agents h = refl
      json_parts-IsSteady health urls agents h = refl

      pub json_document-IsSteady :
          (p : Process) (endpoint : Endpoint) (urls agents : Bool)
          → has_views endpoint urls agents ≡ true
          → IsSteady digits hex (json_document ops scaled cpystrn z sh urls agents p endpoint)
      unfolding json_document json_header
      json_document-IsSteady p endpoint urls agents h =
          append-IsSteady digits hex (json_parts ops scaled cpystrn z sh urls agents endpoint)
            (append (codes "}\n") ∷ []) (json_parts-IsSteady endpoint urls agents h) refl
