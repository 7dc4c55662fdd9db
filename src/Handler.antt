-- ===== src/Handler.antt =====
-- The phase handlers of src/ngx_http_monitoring_module.c: `ngx_http_monitoring_content_handler`,
-- `ngx_http_monitoring_authorize` and `ngx_http_monitoring_log_handler`, with the location's
-- configuration (`ngx_http_monitoring_loc_conf_t`, src/ngx_http_monitoring.h).
pub mod Dispatch
pub mod Refusal
pub mod Logging
use ngx_http_monitoring_modu.Prelude.{
  ℕ, ◌+◌, Bool, true, false, not, ◌&&◌, ◌||◌, List, Option, none, some, bit_or, codes, ◌==◌,
  if◌then◌else◌,
}
use ngx_http_monitoring_modu.Metrics.Methods.{meets}
use ngx_http_monitoring_modu.State.{ShCtx}
use ngx_http_monitoring_modu.Http.{Request, Process, MainConf, Nginx, Rc, rc_ok, rc_declined}
use ngx_http_monitoring_modu.Endpoint.{
  Endpoint, ep_none, dashboard, live, prometheus, health, api_full, api_system, api_nginx,
  api_network, api_disk, api_processes, api_upstreams, api_connections, api_requests,
  match_endpoint,
}
use ngx_http_monitoring_modu.Access.{AccessRule, match_access}
use ngx_http_monitoring_modu.Auth.{is_ok, check_api_token, check_basic_auth}
use ngx_http_monitoring_modu.RateLimit.{check_rate_limit}
use ngx_http_monitoring_modu.Account.{account_request}
use ngx_http_monitoring_modu.Exchange.{
  Exchange, allocates, push_header, plain_response, add_cors, preflight, method_not_allowed,
  not_found, internal_error,
}

-- `ngx_http_monitoring_loc_conf_t` after the merge.
pub record LocConf : Type 0 where
  pub enabled : Bool
  pub dashboard : Bool
  pub api : Bool
  pub sse : Bool
  pub api_token : List ℕ
  pub basic_auth : List ℕ
  pub cors : List ℕ
  pub rate_limit : ℕ
  pub access_rules : List AccessRule

abbrev pub is_none : Endpoint → Bool
is_none ep_none = true
is_none _ = false

abbrev pub is_dashboard : Endpoint → Bool
is_dashboard dashboard = true
is_dashboard _ = false

abbrev pub is_live : Endpoint → Bool
is_live live = true
is_live _ = false

-- Between EP_API_FULL and EP_API_REQUESTS in the enumeration.
abbrev pub is_api : Endpoint → Bool
is_api ep_none = false
is_api dashboard = false
is_api live = false
is_api prometheus = false
is_api health = false
is_api _ = true

abbrev pub is_rc_ok : Rc → Bool
is_rc_ok rc_ok = true
is_rc_ok _ = false

-- The functions that write the responses of the endpoints.
pub record Senders (Double : Type 0) : Type 0 where
  pub send_dashboard : Request → Exchange Double → Rc × Exchange Double
  pub send_sse : Request → Exchange Double → Rc × Exchange Double
  pub send_prometheus : Request → Exchange Double → Rc × Exchange Double
  pub send_health : Request → Exchange Double → Rc × Exchange Double
  pub send_json : Endpoint → Request → Exchange Double → Rc × Exchange Double

module _ {Double : Type 0} (ngx : Nginx) (p : Process) (conf : Option MainConf) where
  -- The answer to missing or wrong basic credentials.
  unfoldable pub refuse_basic : Request → Exchange Double → Rc × Exchange Double
  unfolding push_header plain_response
  refuse_basic r x =
      let (pushed, x1) =
        push_header ngx (codes "WWW-Authenticate") (codes "Basic realm=\"nginx monitoring\"") x in
      if pushed then plain_response ngx r 401 (codes "unauthorized\n") x1 else (internal_error, x1)

  -- The last check, which counts the request.
  unfoldable pub limit_rate : LocConf → Request → Exchange Double → Rc × Exchange Double
  unfolding check_rate_limit plain_response
  limit_rate loc r x =
      let (v, zone) = check_rate_limit p.sec loc.rate_limit conf x.zone in
      let counted = record x { zone = zone } in
      if is_ok v
      then (rc_ok, counted)
      else plain_response ngx r 429 (codes "rate limited\n") counted

  -- `authorize`: the access rules, basic auth, the token (not for the dashboard), the rate limit.
  unfoldable pub authorize : LocConf → Endpoint → Request → Exchange Double → Rc × Exchange Double
  unfolding match_access check_basic_auth check_api_token refuse_basic limit_rate plain_response
  authorize loc endpoint r x =
      let passed = record x { allocations = x.allocations + 1 } in
      if not (is_ok (match_access loc.access_rules r.sockaddr))
      then plain_response ngx r 403 (codes "forbidden\n") x
      else if not (is_ok (check_basic_auth ngx (allocates ngx x) loc.basic_auth r))
      then refuse_basic r passed
      else if not (is_dashboard endpoint) && not (is_ok (check_api_token ngx loc.api_token r))
      then plain_response ngx r 401 (codes "unauthorized\n") passed
      else limit_rate loc r passed

  -- The `switch` at the end of the content handler.
  unfoldable pub dispatch :
      Senders Double → Endpoint → Request → Exchange Double → Rc × Exchange Double
  dispatch s dashboard r x = s.send_dashboard r x
  dispatch s live r x = s.send_sse r x
  dispatch s prometheus r x = s.send_prometheus r x
  dispatch s health r x = s.send_health r x
  dispatch s endpoint r x = s.send_json endpoint r x

  -- What stands behind the tests on the location's switches.
  unfoldable pub serve :
      Senders Double → LocConf → Endpoint → Request → Exchange Double → Rc × Exchange Double
  unfolding authorize dispatch add_cors
  serve s loc endpoint r x =
      let (rc, x1) = authorize loc endpoint r x in
      if is_rc_ok rc then dispatch s endpoint r (add_cors ngx loc.cors x1) else (rc, x1)

  -- The tests of the content handler, once the endpoint is known.
  unfoldable pub handle :
      Senders Double → LocConf → Endpoint → Request → Exchange Double → Rc × Exchange Double
  unfolding preflight serve
  handle s loc endpoint r x =
      if is_none endpoint || not loc.enabled
      then (rc_declined, x)
      else if r.method == ngx.bits.options
      then preflight ngx loc.cors x
      else if not (meets r.method (bit_or ngx.bits.get ngx.bits.head))
      then (method_not_allowed, x)
      else if is_dashboard endpoint && not loc.dashboard
      then (not_found, x)
      else if is_api endpoint && not loc.api
      then (not_found, x)
      else if is_live endpoint && not loc.sse
      then (not_found, x)
      else serve s loc endpoint r x

  unfoldable pub content_handler :
      Senders Double → Option LocConf → Request → Exchange Double → Rc × Exchange Double
  unfolding match_endpoint handle
  content_handler s none r x = (rc_declined, x)
  content_handler s (some loc) r x = handle s loc (match_endpoint r.uri) r x

  -- The log phase accounts every request that is not for a monitoring endpoint.
  unfoldable pub log_handler : Request → Option (ShCtx Double) → Rc × Option (ShCtx Double)
  unfolding match_endpoint account_request
  log_handler r zone = elim conf [
    | none ↦ (rc_ok, zone)
    | some c ↦
        if not c.access_log || not (is_none (match_endpoint r.uri))
        then (rc_ok, zone)
        else (rc_ok, account_request ngx.crc32 ngx.bits p (some c) r zone)
  ]
