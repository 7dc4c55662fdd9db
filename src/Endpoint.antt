-- ===== src/Endpoint.antt =====
-- `ngx_http_monitoring_endpoint_e` (src/ngx_http_monitoring.h) and
-- `ngx_http_monitoring_match_endpoint` (src/ngx_http_monitoring_module.c).
pub mod Laws
use ngx_http_monitoring_modu.Prelude.{
  ℕ, Bool, ◌&&◌, List, [], ◌∷◌, length, String, codes, strncmp_eq, ◌==◌, if◌then◌else◌,
}

pub data Endpoint : Type 0 where
  ep_none dashboard api_full api_system api_nginx api_network api_disk : Endpoint
  api_processes api_upstreams api_connections api_requests live prometheus health : Endpoint

-- One test of the function: the literal in `sizeof`, the literal that `ngx_strncmp` compares with, and
-- the endpoint that is returned.
pub record Route : Type 0 where
  pub sized : List ℕ
  pub compared : List ℕ
  pub endpoint : Endpoint

-- `u->len == sizeof(sized) - 1 && ngx_strncmp(u->data, compared, u->len) == 0`.
unfoldable pub is_at : Route → List ℕ → Bool
is_at row uri = length uri == length row.sized && strncmp_eq uri row.compared (length uri)

abbrev pub route : String → String → Endpoint → Route
route sized compared endpoint = record {
  sized = codes sized;
  compared = codes compared;
  endpoint = endpoint;
}

-- The tests in their order.
abbrev pub routes : List Route
routes =
    route "/monitor" "/monitor" dashboard
    ∷ route "/monitor/" "/monitor/" dashboard
    ∷ route "/monitor/live" "/monitor/live" live
    ∷ route "/monitor/metrics" "/monitor/metrics" prometheus
    ∷ route "/monitor/health" "/monitor/health" health
    ∷ route "/monitor/api" "/monitor/api" api_full
    ∷ route "/monitor/api/system" "/monitor/api/system" api_system
    ∷ route "/monitor/api/nginx" "/monitor/api/nginx" api_nginx
    ∷ route "/monitor/api/network" "/monitor/api/network" api_network
    ∷ route "/monitor/api/disk" "/monitor/api/disk" api_disk
    ∷ route "/monitor/api/processes" "/monitor/api/processes" api_processes
    ∷ route "/monitor/api/upstreams" "/monitor/api/upstreams" api_upstreams
    ∷ route "/monitor/api/connections" "/monitor/api/connections" api_connections
    ∷ route "/monitor/api/requests" "/monitor/api/requests" api_requests
    ∷ []

-- The chain of tests from one of them on.
pub match_from : List Route → List ℕ → Endpoint
match_from [] uri = ep_none
match_from (row ∷ rest) uri = if is_at row uri then row.endpoint else match_from rest uri

unfoldable pub match_endpoint : List ℕ → Endpoint
unfolding is_at match_from
match_endpoint uri = match_from routes uri
