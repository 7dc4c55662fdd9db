-- ===== src/Account/Latency.antt =====
-- The request time of `ngx_http_monitoring_account_request`.
use ngx_http_monitoring_modu.Prelude.{ℕ, ◌+◌, ◌-◌, ◌*◌, ◌^◌, ◌<◌, ◌≡◌, arith}
use ngx_http_monitoring_modu.Http.{Request, Process}
use ngx_http_monitoring_modu.Account.{latency}

-- A point in time as milliseconds.
abbrev pub millis : ℕ → ℕ → ℕ
millis sec msec = sec * 1000 + msec

abbrev pub IsTime : ℕ → ℕ → Type 0
IsTime sec msec = (sec < 2 ^ 50) × (msec < 1000)

-- For times before 2^50 seconds the latency is the difference of the two times in milliseconds, and
-- 0 if the clock went back between them; the unsigned differences in it may wrap around.
pub latency-eq-difference :
    (p : Process) (r : Request)
    → IsTime p.sec p.msec
    → IsTime r.start_sec r.start_msec
    → latency p r ≡ millis p.sec p.msec - millis r.start_sec r.start_msec
unfolding latency
latency-eq-difference p r now start = ground arith
