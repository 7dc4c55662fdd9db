-- ===== src/Dashboard.antt =====
-- `ngx_http_monitoring_send_dashboard` (src/ngx_http_monitoring_dashboard.c). The page is a
-- parameter.
use ngx_http_monitoring_modu.Prelude.{ℕ, ◌+◌, pos, List, true, codes, length, ◌==◌, if◌then◌else◌}
use ngx_http_monitoring_modu.Http.{Request, Nginx, Rc}
use ngx_http_monitoring_modu.Exchange.{
  Exchange, discard_body, send_body, allocates, log_sent, push_header, send_header, internal_error,
}

module _ {Double : Type 0} (ngx : Nginx) (html : List ℕ) where
  -- The three headers, each left out if it cannot be pushed.
  unfoldable pub dashboard_headers : Exchange Double → Exchange Double
  unfolding push_header
  dashboard_headers x =
      let y = (push_header ngx (codes "Cache-Control") (codes "no-store") x).1 in
      let z = (push_header ngx (codes "X-Frame-Options") (codes "DENY") y).1 in
      (push_header ngx (codes "Content-Security-Policy")
        (codes
          "default-src 'self'; script-src 'unsafe-inline' 'self'; style-src 'unsafe-inline' 'self'; connect-src 'self'")
        z).1

  unfoldable pub send_dashboard : Request → Exchange Double → Rc × Exchange Double
  unfolding dashboard_headers send_header
  send_dashboard r x =
      let y = dashboard_headers (log_sent ngx discard_body x) in
      let filled = record y {
        out = record y.out {
          status = 200;
          content_length_n = pos (length html);
          content_type = codes "text/html";
        };
      } in
      let buffered = record filled { allocations = y.allocations + 1 } in
      let headed = (send_header ngx buffered).1 in
      if r.method == ngx.bits.head
      then send_header ngx (record filled { out = record filled.out { header_only = true } })
      else if allocates ngx y
      then (ngx.output_filter headed.out html, log_sent ngx (send_body html) headed)
      else (internal_error, buffered)
