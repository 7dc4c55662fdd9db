-- ===== src/Tests/Events.antt =====
-- Server-sent events at concrete inputs.
use ngx_http_monitoring_modu.Prelude.{
  ℕ, ◌≤◌, ◌<◌, ◌≡◌, ◌⊎◌, refl, true, false, List, [], Option, none, some, length, add_word, arith,
}
use ngx_http_monitoring_modu.State.{ShCtx}
use ngx_http_monitoring_modu.Http.{Rc, rc_ok, rc_error}
use ngx_http_monitoring_modu.Exchange.{Exchange, send_body, log_sent}
use ngx_http_monitoring_modu.Sse.Payload.{sse_text}
use ngx_http_monitoring_modu.Sse.{
  SseClient, sse_buffer_len, is_error, new_client, sse_write, send_sse,
}
use ngx_http_monitoring_modu.Sse.Laws.{slot_data, sse_write-cases}
use ngx_http_monitoring_modu.Sse.Clients.{joined, HubReaches, stays, then_moves, opens}
use ngx_http_monitoring_modu.Sse.Clients.Counted.{IsCounted, HubReaches-IsCounted}
use ngx_http_monitoring_modu.Tests.{nginx, process, main_conf, zone, exchange, digits}
use ngx_http_monitoring_modu.Tests.Ring.{ops, scaled}
use ngx_http_monitoring_modu.Tests.Collectors.{libc}

abbrev sse_client : SseClient
sse_client = new_client ops scaled digits process nginx main_conf

abbrev event : List ℕ
event = sse_text ops scaled digits process 0 zone

sse_write-cases_example :
    (c' : SseClient) × (x' : Exchange ℕ) × (slot_data false c' ≡ [])
    × (c'.slot ≡ true)
    × (((sse_write ops scaled digits process nginx sse_client exchange ≡ (rc_ok, c', x'))
          × (length event < sse_buffer_len)
          × (slot_data c'.slot c' ≡ event)
          × (x' ≡ record (log_sent nginx (send_body event) exchange) {
            zone = some (record zone {
              connections = record zone.connections {
                sse_events = add_word zone.connections.sse_events 1;
              };
            });
          })
          × (c'.sequence ≡ 1))
        ⊎ ((sse_write ops scaled digits process nginx sse_client exchange ≡ (rc_error, c', x'))
            × (is_error (nginx.output_filter exchange.out event) ≡ true)
            × (x' ≡ log_sent nginx (send_body event) exchange)
            × (c'.sequence ≡ 0))
        ⊎ ((sse_write ops scaled digits process nginx sse_client exchange ≡ (rc_error, c', x'))
            × (sse_buffer_len ≤ length event)
            × (x' ≡ exchange)
            × (c'.sequence ≡ 0)))
sse_write-cases_example =
    sse_write-cases ops scaled digits process nginx sse_client exchange zone refl

-- A client that is opened.
abbrev started : Rc × Option SseClient × Exchange ℕ
started = send_sse ops scaled digits process nginx (λ rc. false) (some main_conf) exchange

abbrev zone_of : Option (ShCtx ℕ) → ShCtx ℕ
zone_of none = zone
zone_of (some sh) = sh

started-zone : started.2.zone ≡ some (zone_of started.2.zone)
unfolding send_sse
started-zone = refl

one_client :
    HubReaches libc ops scaled digits nginx
      (record { shared = zone; clients = [] })
      (record { shared = zone_of started.2.zone; clients = joined started.1 [] })
one_client = then_moves stays (
    opens process main_conf (λ rc. false) exchange started.2 started.0 started.1 (omega arith) refl
      refl started-zone)

HubReaches-IsCounted_example :
    IsCounted (record { shared = zone_of started.2.zone; clients = joined started.1 [] })
HubReaches-IsCounted_example =
    HubReaches-IsCounted libc ops scaled digits nginx zone
      (record { shared = zone_of started.2.zone; clients = joined started.1 [] }) refl one_client

one_joined : length (joined started.1 []) ≡ 1
unfolding send_sse
one_joined = refl
