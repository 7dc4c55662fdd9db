-- ===== src/Handler/Logging.antt =====
-- What the log phase does to the shared zone (`ngx_http_monitoring_log_handler`,
-- src/ngx_http_monitoring_module.c).
use ngx_http_monitoring_modu.Prelude.{
  ◌+◌, ◌<◌, ◌≡◌, refl, Bool, true, false, not, ◌||◌, some, inl, inr, ◌⊎◌, word_max, Bool-cases,
}
use ngx_http_monitoring_modu.State.{ShCtx}
use ngx_http_monitoring_modu.Http.{Request, Process, MainConf, Nginx, rc_ok}
use ngx_http_monitoring_modu.Endpoint.{match_endpoint}
use ngx_http_monitoring_modu.Account.{account, account_request}
use ngx_http_monitoring_modu.Account.Balance.{IsBalanced, account-IsBalanced}
use ngx_http_monitoring_modu.Handler.{is_none, log_handler}

-- Whether a request is left out of the counters.
abbrev pub is_silent : MainConf → Request → Bool
is_silent c r = not c.access_log || not (is_none (match_endpoint r.uri))

module _ {Double : Type 0} (ngx : Nginx) (p : Process) (c : MainConf) (r : Request) where
  log_handler-silent :
      (sh : ShCtx Double)
      → is_silent c r ≡ true
      → log_handler ngx p (some c) r (some sh) ≡ (rc_ok, some sh)
  unfolding log_handler
  log_handler-silent sh e = rw (e)

  log_handler-account :
      (sh : ShCtx Double)
      → is_silent c r ≡ false
      → log_handler ngx p (some c) r (some sh) ≡ (rc_ok, some (account ngx.crc32 ngx.bits p c r sh))
  unfolding log_handler account_request
  log_handler-account sh e = rw (e)

  -- With balanced counters and a total that does not wrap around: after the log phase the zone is
  -- unchanged, if the request is for a monitoring endpoint or `access_log` is off, and else it
  -- counts one request more; the counters are balanced in both cases.
  pub log_handler-IsBalanced :
      (sh : ShCtx Double)
      → IsBalanced sh.requests
      → sh.requests.total < word_max
      → (sh' : ShCtx Double) × (log_handler ngx p (some c) r (some sh) ≡ (rc_ok, some sh'))
        × IsBalanced sh'.requests
        × ((is_silent c r ≡ true × sh' ≡ sh)
            ⊎ (is_silent c r ≡ false × sh'.requests.total ≡ sh.requests.total + 1))
  log_handler-IsBalanced sh b w = elim (Bool-cases (is_silent c r)) [
    | inl e ↦ (sh, log_handler-silent sh e, b, inl (e, refl))
    | inr e ↦
        let (b', n) = account-IsBalanced ngx.crc32 ngx.bits p c r sh w b in
        (account ngx.crc32 ngx.bits p c r sh, log_handler-account sh e, b', inr (e, n))
  ]
