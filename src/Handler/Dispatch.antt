-- ===== src/Handler/Dispatch.antt =====
-- When the content handler reaches the response of an endpoint
-- (`ngx_http_monitoring_content_handler`, src/ngx_http_monitoring_module.c).
use ngx_http_monitoring_modu.Prelude.{
  ℕ, ◌≡◌, ◌≢◌, ap, ◌∙◌, true, false, not, ◌&&◌, List, Option, some, codes, bit_or, ne→==,
}
use ngx_http_monitoring_modu.Metrics.Methods.{meets}
use ngx_http_monitoring_modu.Http.{Request, Process, MainConf, Nginx, rc_ok, HeadersOut}
use ngx_http_monitoring_modu.Endpoint.{Endpoint, match_endpoint}
use ngx_http_monitoring_modu.Access.{declined, match_access}
use ngx_http_monitoring_modu.Exchange.{Exchange, allocates, plain_response, add_cors}
use ngx_http_monitoring_modu.Handler.{
  LocConf, Senders, is_none, is_dashboard, is_api, is_live, authorize, dispatch, serve, handle,
  content_handler,
}
use ngx_http_monitoring_modu.Handler.Refusal.{authorize-forbidden}

-- Whether the location offers the endpoint: it is enabled, and the switch of the endpoint is on.
abbrev pub IsOffered : LocConf → Endpoint → Type 0
IsOffered loc e =
    (is_none e ≡ false)
    × (loc.enabled ≡ true)
    × ((is_dashboard e && not loc.dashboard) ≡ false)
    × ((is_api e && not loc.api) ≡ false)
    × ((is_live e && not loc.sse) ≡ false)

-- GET or HEAD, and not OPTIONS.
abbrev pub IsRead : Nginx → ℕ → Type 0
IsRead ngx method =
    (method ≢ ngx.bits.options) × (meets method (bit_or ngx.bits.get ngx.bits.head) ≡ true)

module _ {Double : Type 0} (ngx : Nginx) (p : Process) (conf : Option MainConf) where
  -- A plain response to a request that is not HEAD, if its buffer can be allocated, returns what
  -- the output filter returns.
  plain_response-output_filter :
      (r : Request) (status : ℕ) (body : List ℕ) (x : Exchange Double)
      → r.method ≢ ngx.bits.head
      → allocates ngx x ≡ true
      → ((out : HeadersOut) (b : List ℕ) → ngx.output_filter out b ≡ rc_ok)
      → (plain_response ngx r status body x).0 ≡ rc_ok
  unfolding plain_response
  plain_response-output_filter r status body x m a o =
      rw (ne→== r.method ngx.bits.head m, a) (o _ body)

  module _ (s : Senders Double) (loc : LocConf) (r : Request) (x : Exchange Double) where
    handle-serve :
        (e : Endpoint)
        → IsOffered loc e
        → IsRead ngx r.method
        → handle ngx p conf s loc e r x ≡ serve ngx p conf s loc e r x
    unfolding handle
    handle-serve e (n, on, d, a, l) (m, g) =
        rw (n, on, ne→== r.method ngx.bits.options m, g, d, a, l)

    content_handler-serve :
        IsOffered loc (match_endpoint r.uri)
        → IsRead ngx r.method
        → content_handler ngx p conf s (some loc) r x
          ≡ serve ngx p conf s loc (match_endpoint r.uri) r x
    unfolding content_handler
    content_handler-serve o g = handle-serve (match_endpoint r.uri) o g

    serve-dispatch :
        (e : Endpoint)
        → (authorize ngx p conf loc e r x).0 ≡ rc_ok
        → serve ngx p conf s loc e r x
          ≡ dispatch ngx p conf s e r (add_cors ngx loc.cors (authorize ngx p conf loc e r x).1)
    unfolding serve
    serve-dispatch e c = rw (c)

    -- A client that the access rules deny, with a GET for an endpoint that the location offers: if
    -- nginx takes the refusal's buffer and sends it at once (the output filter returns NGX_OK), the
    -- handler goes on to the response of the endpoint.
    pub content_handler-forbidden :
        IsOffered loc (match_endpoint r.uri)
        → IsRead ngx r.method
        → r.method ≢ ngx.bits.head
        → allocates ngx x ≡ true
        → ((out : HeadersOut) (b : List ℕ) → ngx.output_filter out b ≡ rc_ok)
        → match_access loc.access_rules r.sockaddr ≡ declined
        → content_handler ngx p conf s (some loc) r x
          ≡ dispatch ngx p conf s
              (match_endpoint r.uri)
              r
              (add_cors ngx loc.cors (plain_response ngx r 403 (codes "forbidden\n") x).1)
    content_handler-forbidden o g h c f a =
        let e = authorize-forbidden ngx p conf loc (match_endpoint r.uri) r x a in
        content_handler-serve o g
        ∙ serve-dispatch (match_endpoint r.uri)
            (ap (λ y. y.0) e ∙ plain_response-output_filter r 403 (codes "forbidden\n") x h c f)
        ∙ ap (λ y. dispatch ngx p conf s (match_endpoint r.uri) r (add_cors ngx loc.cors y.1)) e
