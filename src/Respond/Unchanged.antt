-- ===== src/Respond/Unchanged.antt =====
-- Which responses leave the zone alone.
use ngx_http_monitoring_modu.Prelude.{
  ℕ, ◌≡◌, ◌≢◌, refl, ◌∙◌, List, [], codes, Bool, false, Option, none, some, Bool-cases, inl, inr,
  ◌==◌,
}
use ngx_http_monitoring_modu.State.{ShCtx}
use ngx_http_monitoring_modu.Http.{Request, Process, MainConf, Nginx}
use ngx_http_monitoring_modu.Endpoint.{
  Endpoint, ep_none, dashboard, live, prometheus, health, api_full, api_system, api_nginx,
  api_network, api_disk, api_processes, api_upstreams, api_connections, api_requests,
}
use ngx_http_monitoring_modu.Exchange.{
  Exchange, discard_body, allocates, log_sent, push_header, send_header,
}
use ngx_http_monitoring_modu.Handler.{dispatch}
use ngx_http_monitoring_modu.Format.{Digits}
use ngx_http_monitoring_modu.Dashboard.{dashboard_headers, send_dashboard}
use ngx_http_monitoring_modu.Json.{JsonWriter}
use ngx_http_monitoring_modu.Json.Call.{Call, calls}
use ngx_http_monitoring_modu.Json.Send.{
  view_count, json_document, prometheus_document, health_document, add_no_store, send_buffer,
  write_and_send, send_document, send_json, send_prometheus, send_health,
}
use ngx_http_monitoring_modu.Respond.{Outside, senders}

module _ {Double : Type 0} (ngx : Nginx) where
  push_header-zone :
      (key value : List ℕ) (x : Exchange Double) → (push_header ngx key value x).1.zone ≡ x.zone
  unfolding push_header
  push_header-zone key value x = elim (Bool-cases (allocates ngx x)) [
    | inl b ↦ rw (b) refl
    | inr b ↦ rw (b) refl
  ]

  dashboard_headers-zone :
      (html : List ℕ) (x : Exchange Double) → (dashboard_headers ngx html x).zone ≡ x.zone
  unfolding dashboard_headers
  dashboard_headers-zone html x =
      push_header-zone _ _ _ ∙ push_header-zone _ _ _ ∙ push_header-zone _ _ _

  send_dashboard-zone :
      (html : List ℕ) (r : Request) (x : Exchange Double)
      → (send_dashboard ngx html r x).1.zone ≡ x.zone
  unfolding send_dashboard send_header
  send_dashboard-zone html r x = elim (Bool-cases (r.method == ngx.bits.head)) [
    | inl b ↦ rw (b) (dashboard_headers-zone html _)
    | inr b ↦
        elim (Bool-cases
          (ngx.can_alloc (dashboard_headers ngx html (log_sent ngx discard_body x)).allocations)) [
            | inl d ↦ rw (b, d) (dashboard_headers-zone html _)
            | inr d ↦ rw (b, d) (dashboard_headers-zone html _)
          ]
  ]

  send_buffer-zone :
      (body type : List ℕ) (r : Request) (x : Exchange Double)
      → (send_buffer ngx body type r x).1.zone ≡ x.zone
  unfolding send_buffer add_no_store send_header
  send_buffer-zone body type r x = elim (Bool-cases (r.method == ngx.bits.head)) [
    | inl b ↦ rw (b) (push_header-zone _ _ _ ∙ push_header-zone _ _ _)
    | inr b ↦ rw (b) (push_header-zone _ _ _ ∙ push_header-zone _ _ _)
  ]

  module _ (digits : Digits Double) (hex : ℕ → List ℕ) where
    write_and_send-zone :
        (size : ℕ) (type : List ℕ) (document : List (Call Double)) (r : Request)
        (x : Exchange Double)
        → (write_and_send ngx digits hex size type document r x).1.zone ≡ x.zone
    unfolding write_and_send
    write_and_send-zone size type document r x =
        let jw : JsonWriter = record { size = size; written = []; failed = false } in
        elim (Bool-cases (calls digits hex jw document).failed) [
          | inl b ↦ rw (b) refl
          | inr b ↦ rw (b) (send_buffer-zone _ type r x)
        ]

    send_document-zone :
        (size : ℕ) (type : List ℕ) (more : ℕ)
        (document : ShCtx Double → Bool → Bool → List (Call Double)) (r : Request)
        (x : Exchange Double) (zone : Option (ShCtx Double))
        → (send_document ngx digits hex size type more document r x zone).1.zone ≡ x.zone
    send_document-zone size type more document r x none = refl
    send_document-zone size type more document r x (some sh) = elim (Bool-cases (allocates ngx x)) [
      | inl b ↦ rw (b) (write_and_send-zone size type _ r _)
      | inr b ↦ rw (b) refl
    ]

module _ {Double : Type 0} (o : Outside Double) (ngx : Nginx) (p : Process)
    (conf : Option MainConf) where
  send_json-zone :
      (endpoint : Endpoint) (r : Request) (x : Exchange Double)
      → (send_json o.ops o.scaled o.cpystrn o.zero_sample ngx o.digits o.hex p endpoint r x).1.zone
        ≡ x.zone
  unfolding send_json
  send_json-zone endpoint r x =
      send_document-zone ngx o.digits o.hex 524288 (codes "application/json") (view_count endpoint)
        (λ sh urls agents.
          json_document o.ops o.scaled o.cpystrn o.zero_sample sh urls agents p endpoint)
        r x x.zone

  send_prometheus-zone :
      (r : Request) (x : Exchange Double)
      → (send_prometheus o.ops o.scaled o.cpystrn o.zero_sample ngx o.digits o.hex p r x).1.zone
        ≡ x.zone
  unfolding send_prometheus
  send_prometheus-zone r x =
      send_document-zone ngx o.digits o.hex 131072 (codes "text/plain") 0
        (λ sh urls agents. prometheus_document o.ops o.scaled sh) r x x.zone

  send_health-zone :
      (r : Request) (x : Exchange Double)
      → (send_health o.ops o.scaled o.cpystrn o.zero_sample ngx o.digits o.hex p r x).1.zone
        ≡ x.zone
  unfolding send_health
  send_health-zone r x =
      send_document-zone ngx o.digits o.hex 4096 (codes "application/json") 0
        (λ sh urls agents. health_document p sh) r x x.zone

  -- No response but that of the live endpoint changes the zone: the metrics are only read.
  pub dispatch-zone :
      (endpoint : Endpoint) (r : Request) (x : Exchange Double)
      → endpoint ≢ live
      → (dispatch ngx p conf (senders o ngx p conf) endpoint r x).1.zone ≡ x.zone
  unfolding dispatch senders
  dispatch-zone dashboard r x h = send_dashboard-zone ngx o.html r x
  dispatch-zone live r x h = absurd (h refl)
  dispatch-zone prometheus r x h = send_prometheus-zone r x
  dispatch-zone health r x h = send_health-zone r x
  dispatch-zone ep_none r x h = send_json-zone ep_none r x
  dispatch-zone api_full r x h = send_json-zone api_full r x
  dispatch-zone api_system r x h = send_json-zone api_system r x
  dispatch-zone api_nginx r x h = send_json-zone api_nginx r x
  dispatch-zone api_network r x h = send_json-zone api_network r x
  dispatch-zone api_disk r x h = send_json-zone api_disk r x
  dispatch-zone api_processes r x h = send_json-zone api_processes r x
  dispatch-zone api_upstreams r x h = send_json-zone api_upstreams r x
  dispatch-zone api_connections r x h = send_json-zone api_connections r x
  dispatch-zone api_requests r x h = send_json-zone api_requests r x
