-- ===== src/Endpoint/Laws.antt =====
-- The monitoring endpoints are exactly the paths that the documents name (README.md, docs/API.md,
-- docs/ARCHITECTURE.md).
use ngx_http_monitoring_modu.Prelude.{
  ℕ, ◌≡◌, ◌≢◌, List, [], ◌∷◌, length, All, get_elem?, some, codes,
}
use ngx_http_monitoring_modu.Endpoint.{
  Endpoint, ep_none, dashboard, live, prometheus, health, api_full, api_system, api_nginx,
  api_network, api_disk, api_processes, api_upstreams, api_connections, api_requests, Route,
}

-- The paths of an endpoint in the documents; the dashboard's may end in a slash.
abbrev pub documented : Endpoint → List (List ℕ)
documented ep_none = []
documented dashboard = codes "/monitor" ∷ codes "/monitor/" ∷ []
documented live = codes "/monitor/live" ∷ []
documented prometheus = codes "/monitor/metrics" ∷ []
documented health = codes "/monitor/health" ∷ []
documented api_full = codes "/monitor/api" ∷ []
documented api_system = codes "/monitor/api/system" ∷ []
documented api_nginx = codes "/monitor/api/nginx" ∷ []
documented api_network = codes "/monitor/api/network" ∷ []
documented api_disk = codes "/monitor/api/disk" ∷ []
documented api_processes = codes "/monitor/api/processes" ∷ []
documented api_upstreams = codes "/monitor/api/upstreams" ∷ []
documented api_connections = codes "/monitor/api/connections" ∷ []
documented api_requests = codes "/monitor/api/requests" ∷ []

-- The path is one of the endpoint's.
abbrev pub IsDocumented : List ℕ → Endpoint → Type 0
IsDocumented uri e = (i : ℕ) × (get_elem? (documented e) i ≡ some uri)

-- Both literals of a test have one length, and the compared one is a path of the endpoint.
abbrev IsRoute : Route → Type 0
IsRoute row =
    All (λ c. c ≢ 0) row.compared
    × (length row.sized ≡ length row.compared)
    × IsDocumented row.compared row.endpoint
