-- ===== src/Respond.antt =====
-- The responses behind the content handler: the functions of src/ngx_http_monitoring_dashboard.c,
-- src/ngx_http_monitoring_sse.c and src/ngx_http_monitoring_json.c that its `switch` calls
-- (src/ngx_http_monitoring_module.c).
pub mod Unchanged
use ngx_http_monitoring_modu.Prelude.{ℕ, Bool, List, Option}
use ngx_http_monitoring_modu.State.{HistorySample}
use ngx_http_monitoring_modu.Http.{Request, Process, MainConf, Nginx, Rc}
use ngx_http_monitoring_modu.History.{DoubleOps}
use ngx_http_monitoring_modu.Format.{Digits}
use ngx_http_monitoring_modu.Handler.{Senders}
use ngx_http_monitoring_modu.Dashboard.{send_dashboard}
use ngx_http_monitoring_modu.Sse.{send_sse}
use ngx_http_monitoring_modu.Json.Send.{send_json, send_prometheus, send_health}

-- What the responses call that is not the module's: arithmetic on doubles, a product and division of
-- the percentile, the digits of numbers, the conversion `%04x`, `ngx_cpystrn`, and the page.
pub record Outside (Double : Type 0) : Type 0 where
  pub ops : DoubleOps Double
  pub scaled : ℕ → ℕ → ℕ
  pub digits : Digits Double
  pub hex : ℕ → List ℕ
  pub cpystrn : List ℕ → List ℕ → ℕ → List ℕ
  pub html : List ℕ
  pub zero_sample : HistorySample Double
  pub header_only : Request → Rc → Bool

module _ {Double : Type 0} (o : Outside Double) (ngx : Nginx) (p : Process)
    (conf : Option MainConf) where
  open o use {ops, scaled, digits, hex, cpystrn, html, header_only}

  unfoldable pub senders : Senders Double
  unfolding send_dashboard send_sse send_prometheus send_health send_json
  senders = record {
    send_dashboard = λ r x. send_dashboard ngx html r x;
    send_sse = λ r x.
        let (rc, c, x') = send_sse ops scaled digits p ngx (header_only r) conf x in (rc, x');
    send_prometheus = λ r x. send_prometheus ops scaled cpystrn o.zero_sample ngx digits hex p r x;
    send_health = λ r x. send_health ops scaled cpystrn o.zero_sample ngx digits hex p r x;
    send_json =
        λ endpoint r x. send_json ops scaled cpystrn o.zero_sample ngx digits hex p endpoint r x;
  }
