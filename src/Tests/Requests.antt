-- ===== src/Tests/Requests.antt =====
-- The handlers and the configuration at concrete inputs.
use ngx_http_monitoring_modu.Prelude.{
  ℕ, ◌+◌, ◌≡◌, ◌⊎◌, refl, true, false, List, [], ◌∷◌, none, some, codes, arith,
}
use ngx_http_monitoring_modu.State.{ShCtx}
use ngx_http_monitoring_modu.Http.{Request, HeadersOut, Rc, rc_ok}
use ngx_http_monitoring_modu.Endpoint.{api_full, match_endpoint}
use ngx_http_monitoring_modu.Access.{declined, match_access}
use ngx_http_monitoring_modu.Http.{unspec}
use ngx_http_monitoring_modu.RateLimit.Laws.{first, verdicts, verdicts-first}
use ngx_http_monitoring_modu.Exchange.{Exchange, plain_response, add_cors}
use ngx_http_monitoring_modu.Handler.{
  LocConf, Senders, authorize, dispatch, content_handler, log_handler,
}
use ngx_http_monitoring_modu.Handler.Refusal.{Decision, authorize-Decision}
use ngx_http_monitoring_modu.Handler.Dispatch.{IsOffered, IsRead, content_handler-forbidden}
use ngx_http_monitoring_modu.Handler.Logging.{is_silent, log_handler-IsBalanced}
use ngx_http_monitoring_modu.Account.Balance.{IsBalanced}
use ngx_http_monitoring_modu.Config.{
  MainSettings, LocSettings, create_main_conf, create_loc_conf, with_defaults, init_main_conf,
}
use ngx_http_monitoring_modu.Config.Limits.{IsWithinLimits, init_main_conf-IsWithinLimits}
use ngx_http_monitoring_modu.Config.Merge.{effective, AreNearest, effective-AreNearest}
use ngx_http_monitoring_modu.Tests.{
  nginx, request, page_request, process, main_conf, location, zone, exchange,
}

-- Two requests pass in a second, and the third is refused.
verdicts-first_example : verdicts 100 2 main_conf 3 (some zone) ≡ first 2 3
verdicts-first_example =
    verdicts-first 100 2 main_conf (λ e. cc) refl 3 zone (λ e. cc) (omega arith)

abbrev answer : Request → Exchange ℕ → Rc × Exchange ℕ
answer r x = (rc_ok, x)

abbrev senders : Senders ℕ
senders = record {
  send_dashboard = answer;
  send_sse = answer;
  send_prometheus = answer;
  send_health = answer;
  send_json = λ e. answer;
}

authorize-Decision_example :
    Decision nginx process
      (some main_conf)
      location
      api_full
      request
      exchange
      (authorize nginx process (some main_conf) location api_full request exchange)
authorize-Decision_example =
    authorize-Decision nginx process (some main_conf) location api_full request exchange

request-IsRead : IsRead nginx request.method
request-IsRead = (λ e. cc, refl)

-- The location with `monitor_deny all`.
abbrev closed : LocConf
closed = record location {
  access_rules =
      record {
        deny = true;
        cidr = record { family = unspec; addr = 0; mask = 0; addr6 = []; mask6 = [] };
      }
      ∷ [];
}

closed-IsOffered : IsOffered closed (match_endpoint request.uri)
unfolding match_endpoint
closed-IsOffered = (refl, refl, refl, refl, refl)

closed-declined : match_access closed.access_rules request.sockaddr ≡ declined
unfolding match_access
closed-declined = refl

sent : (out : HeadersOut) (b : List ℕ) → nginx.output_filter out b ≡ rc_ok
sent out b = refl

content_handler-forbidden_example :
    content_handler nginx process (some main_conf) senders (some closed) request exchange
    ≡ dispatch nginx process (some main_conf) senders (match_endpoint request.uri) request (
        add_cors nginx closed.cors
          (plain_response nginx request 403 (codes "forbidden\n") exchange).1)
content_handler-forbidden_example =
    content_handler-forbidden nginx process (some main_conf) senders closed request exchange
      closed-IsOffered request-IsRead (λ e. cc) refl sent closed-declined

zone-IsBalanced : IsBalanced zone.requests
zone-IsBalanced = omega arith

log_handler-IsBalanced_example :
    (sh' : ShCtx ℕ) × (log_handler nginx process (some main_conf) page_request (some zone)
      ≡ (rc_ok, some sh'))
    × IsBalanced sh'.requests
    × ((is_silent main_conf page_request ≡ true × sh' ≡ zone)
        ⊎ (is_silent main_conf page_request ≡ false × sh'.requests.total ≡ zone.requests.total + 1))
log_handler-IsBalanced_example =
    log_handler-IsBalanced nginx process main_conf page_request zone zone-IsBalanced (omega arith)

-- An interval that is too short.
abbrev short : MainSettings
short = record create_main_conf { resolution = some 50 }

init_main_conf-IsWithinLimits_example :
    ((init_main_conf short ≡ some (with_defaults short)) × IsWithinLimits (with_defaults short))
    ⊎ ((init_main_conf short ≡ none) × (¬ IsWithinLimits (with_defaults short)))
init_main_conf-IsWithinLimits_example = init_main_conf-IsWithinLimits short

-- A location that is enabled, in a server with a token.
abbrev server_settings : LocSettings
server_settings = record create_loc_conf { api_token = some (codes "t"); rate_limit = some 5 }

abbrev loc_settings : LocSettings
loc_settings = record create_loc_conf { enabled = some true; rate_limit = some 0 }

effective-AreNearest_example :
    AreNearest create_loc_conf server_settings loc_settings
      (effective create_loc_conf server_settings loc_settings)
effective-AreNearest_example = effective-AreNearest create_loc_conf server_settings loc_settings
