-- ===== src/RateLimit.antt =====
-- `ngx_http_monitoring_check_rate_limit` (src/ngx_http_monitoring_module.c): at most `rate_limit`
-- requests in one second of the cached clock, counted in the shared zone. The function is modelled
-- as one step; `ngx_shmtx_lock` guards only the reset of the window.
pub mod Laws
use ngx_http_monitoring_modu.Prelude.{
  ℕ, Bool, not, ◌||◌, Option, none, some, add_word, ltb, ◌==◌, if◌then◌else◌,
}
use ngx_http_monitoring_modu.State.{ShCtx}
use ngx_http_monitoring_modu.Http.{MainConf}
use ngx_http_monitoring_modu.Access.{Verdict, ok, declined}

module _ {Double : Type 0} where
  -- The part under the lock, with its second test of the window.
  unfoldable pub reset_window : ℕ → ShCtx Double → ShCtx Double
  reset_window now sh =
      if not (sh.rate_limit_window == now)
      then record sh { rate_limit_window = now; rate_limit_count = 0 }
      else sh

  unfoldable pub open_window : ℕ → ShCtx Double → ShCtx Double
  unfolding reset_window
  open_window now sh = if not (sh.rate_limit_window == now) then reset_window now sh else sh

  -- The atomic increment and the comparison of its new value with the limit.
  unfoldable pub count_against : ℕ → ShCtx Double → Verdict × ShCtx Double
  count_against rate_limit sh =
      let count = add_word sh.rate_limit_count 1 in
      let counted = record sh { rate_limit_count = count } in
      if ltb rate_limit count
      then (
        declined,
        record counted {
          connections = record sh.connections {
            rate_limited = add_word sh.connections.rate_limited 1;
          };
        },
      )
      else (ok, counted)

  -- With the limit off, or without a zone or a pool, every request passes.
  unfoldable pub check_rate_limit :
      ℕ → ℕ → Option MainConf → Option (ShCtx Double) → Verdict × Option (ShCtx Double)
  unfolding open_window count_against
  check_rate_limit now rate_limit none sh = (ok, sh)
  check_rate_limit now rate_limit (some conf) none = (ok, none)
  check_rate_limit now rate_limit (some conf) (some sh) =
      if rate_limit == 0 || not conf.shpool
      then (ok, some sh)
      else (let (v, sh') = count_against rate_limit (open_window now sh) in (v, some sh'))
