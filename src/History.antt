-- ===== src/History.antt =====
-- The ring of history samples: the capacity that `ngx_http_monitoring_init_shm` sets
-- (src/ngx_http_monitoring_shm.c), `ngx_http_monitoring_collect_history` with its helpers
-- (src/ngx_http_monitoring_collectors.c), and the samples that the loop of
-- `ngx_http_monitoring_json_history` visits (src/ngx_http_monitoring_json.c). The operations on C's
-- doubles are parameters.
pub mod Ring
pub mod Laws
pub mod Samples
pub mod Start
use Prim.Native.Nat.{◌/◌}
use ngx_http_monitoring_modu.Prelude.{
  ℕ, zero, suc, ◌+◌, ◌%◌, Bool, true, false, not, ◌&&◌, ◌||◌, List, [], ◌∷◌, Option, none, some,
  min, max, set, get_or, take, add_word, sub_word, mul_word, ltb, leb, ◌==◌, if◌then◌else◌,
}
use ngx_http_monitoring_modu.Metrics.Percentile.{percentile}
use ngx_http_monitoring_modu.State.{
  ShCtx, HistorySample, IfaceMetric, DiskMetric, history_max, ifaces_max, disks_max,
}
use ngx_http_monitoring_modu.State.Zero.{zero_shctx, zero_sample}
use ngx_http_monitoring_modu.Http.{MainConf, Process}

-- The capacity for a configuration: the samples of `history` milliseconds, at least one and at
-- most NGX_HTTP_MONITORING_HISTORY_MAX.
unfoldable pub capacity_for : MainConf → ℕ
capacity_for conf =
    let capacity = conf.history / max conf.resolution 1 in
    if capacity == 0 then 1 else if ltb history_max capacity then history_max else capacity

-- The sums over the interfaces and the disks in use.
pub sum_by : {A : Type 0} → (A → ℕ) → ℕ → List A → ℕ
sum_by f total [] = total
sum_by f total (x ∷ xs) = sum_by f (add_word total (f x)) xs

unfoldable pub delta : ℕ → ℕ → ℕ
delta now prev = if leb prev now then sub_word now prev else 0

-- What a rate is per unit, times `scale`, over `dt` milliseconds.
abbrev pub rate : ℕ → ℕ → ℕ → ℕ → ℕ
rate now prev scale dt = mul_word (delta now prev) scale / dt

abbrev pub smooth : ℕ → ℕ → ℕ
smooth old new = add_word (mul_word old 7) (mul_word new 3) / 10

-- `tp->sec * 1000 + tp->msec`.
abbrev pub now_msec : Process → ℕ
now_msec p = add_word (mul_word p.sec 1000) p.msec

-- Arithmetic on doubles, and the conversion of a word.
pub record DoubleOps (Double : Type 0) : Type 0 where
  pub of_word : ℕ → Double
  pub times : Double → Double → Double
  pub over : Double → Double → Double

module _ {Double : Type 0} where
  -- A zone that is kept over a reload, or was there already, gets the new capacity.
  unfoldable pub resize : MainConf → ShCtx Double → ShCtx Double
  unfolding capacity_for
  resize conf sh =
      let capacity = capacity_for conf in
      record sh {
        history_capacity = capacity;
        history_count = if ltb capacity sh.history_count then capacity else sh.history_count;
      }

  -- `inherited` is the zone of the old configuration; `attached` is there if the shared memory
  -- exists, with the zone in it; `allocated` is whether `ngx_slab_alloc` succeeds. No zone is
  -- NGX_ERROR.
  unfoldable pub init_shm :
      Double
      → MainConf
      → Option (ShCtx Double)
      → Option (Option (ShCtx Double))
      → Bool
      → Option (ShCtx Double)
  unfolding capacity_for resize
  init_shm d conf (some sh) attached allocated = some (resize conf sh)
  init_shm d conf none (some (some sh)) allocated = some (resize conf sh)
  init_shm d conf none (some none) allocated = none
  init_shm d conf none none true = some (record (zero_shctx d) {
    history_capacity = capacity_for conf;
    initialized = 1;
    generation = 1;
  })
  init_shm d conf none none false = none

  unfoldable pub sum_network : ShCtx Double → Bool → ℕ
  unfolding sum_by
  sum_network sh tx =
      sum_by (λ i. if tx then i.tx_bytes else i.rx_bytes) 0
        (take (min sh.iface_count ifaces_max) sh.ifaces)

  unfoldable pub sum_disk : ShCtx Double → Bool → ℕ
  unfolding sum_by
  sum_disk sh write =
      sum_by (λ d. if write then d.write_bytes else d.read_bytes) 0
        (take (min sh.disk_count disks_max) sh.disks)

  -- The capacity that the writer uses.
  abbrev pub writer_capacity : ShCtx Double → ℕ
  writer_capacity sh =
      if sh.history_capacity == 0 || ltb history_max sh.history_capacity
      then history_max
      else sh.history_capacity

  -- The sample is put at the write position, which moves on.
  unfoldable pub push_sample : HistorySample Double → ShCtx Double → ShCtx Double
  push_sample sample sh =
      let capacity = writer_capacity sh in
      record sh {
        history_write = add_word sh.history_write 1;
        history = set sh.history (sh.history_write % capacity) sample;
        history_count =
            if ltb sh.history_count capacity then add_word sh.history_count 1 else sh.history_count;
      }

  -- The samples that the loop of `json_history` visits, with `n` rounds left.
  pub samples_from :
      HistorySample Double → ShCtx Double → ℕ → ℕ → ℕ → ℕ → List (HistorySample Double)
  samples_from z sh capacity count zero i = []
  samples_from z sh capacity count (suc n) i =
      let idx = add_word (sub_word (add_word sh.history_write capacity) count) i % capacity in
      get_or sh.history idx z ∷ samples_from z sh capacity count n (i + 1)

  unfoldable pub json_history : HistorySample Double → ShCtx Double → List (HistorySample Double)
  unfolding samples_from
  json_history z sh =
      let count = min sh.history_count history_max in
      let capacity = min sh.history_capacity history_max in
      if capacity == 0 then [] else samples_from z sh capacity count count 0

  module _ (ops : DoubleOps Double) (scaled : ℕ → ℕ → ℕ) (conf : MainConf) (p : Process) where
    open ops use {of_word, times, over}

    -- The milliseconds that the rates are over.
    unfoldable pub elapsed : ShCtx Double → ℕ
    elapsed sh =
        let prev = sh.prev_collect_msec in
        let dt =
          if prev == 0 || leb (now_msec p) prev
          then conf.refresh_interval
          else sub_word (now_msec p) prev in
        if dt == 0 then 1 else dt

    -- `part` of `total` in percent.
    abbrev pub percent : ℕ → ℕ → Double
    percent total rest =
        if ltb 0 total
        then over (times (of_word (sub_word total rest)) (of_word 100)) (of_word total)
        else of_word 0

    abbrev pub milli : ℕ → Double
    milli x = over (of_word x) (of_word 1000)

    -- The moving averages; the first value is taken as it is.
    unfoldable pub average : ShCtx Double → ShCtx Double
    unfolding delta elapsed
    average sh =
        let dt = elapsed sh in
        let rps = rate sh.requests.total sh.prev_req_total 1000000 dt in
        let resp = rate sh.requests.responses sh.prev_resp_total 1000000 dt in
        let first = sh.ewma_rps_milli == 0 in
        record sh {
          ewma_rps_milli = if first then rps else smooth sh.ewma_rps_milli rps;
          ewma_resp_milli = if first then resp else smooth sh.ewma_resp_milli resp;
        }

    -- The new sample; the averages of the zone are the new ones.
    unfoldable pub new_sample : ShCtx Double → HistorySample Double
    unfolding delta elapsed sum_network sum_disk percentile
    new_sample sh =
        let dt = elapsed sh in
        record {
          timestamp = p.sec;
          msec = p.msec;
          cpu_usage = milli sh.system.usage_milli;
          load1 = milli sh.system.load1_milli;
          load5 = milli sh.system.load5_milli;
          load15 = milli sh.system.load15_milli;
          memory_used_pct = percent sh.system.mem_total sh.system.mem_available;
          swap_used_pct = percent sh.system.swap_total sh.system.swap_free;
          requests_per_sec = milli sh.ewma_rps_milli;
          responses_per_sec = milli sh.ewma_resp_milli;
          network_rx_per_sec = of_word (rate (sum_network sh false) sh.prev_net_rx 1000 dt);
          network_tx_per_sec = of_word (rate (sum_network sh true) sh.prev_net_tx 1000 dt);
          disk_read_per_sec = of_word (rate (sum_disk sh false) sh.prev_disk_read 1000 dt);
          disk_write_per_sec = of_word (rate (sum_disk sh true) sh.prev_disk_write 1000 dt);
          latency_p95 = of_word (percentile scaled sh.requests.latency_bucket 95);
          requests_total = sh.requests.total;
          status_4xx = sh.requests.status_4xx;
          status_5xx = sh.requests.status_5xx;
        }

    -- Whether `resolution` milliseconds have not gone by since the last sample.
    unfoldable pub is_early : ShCtx Double → Bool
    is_early sh =
        not (sh.prev_history_msec == 0)
        && ltb (sub_word (now_msec p) sh.prev_history_msec) conf.resolution

    -- What the next sample is compared with; `sh` is the zone before.
    unfoldable pub keep_totals : ShCtx Double → ShCtx Double → ShCtx Double
    unfolding sum_network sum_disk
    keep_totals sh pushed = record pushed {
      prev_req_total = sh.requests.total;
      prev_resp_total = sh.requests.responses;
      prev_net_rx = sum_network sh false;
      prev_net_tx = sum_network sh true;
      prev_disk_read = sum_disk sh false;
      prev_disk_write = sum_disk sh true;
      prev_collect_msec = now_msec p;
      prev_history_msec = now_msec p;
    }

    unfoldable pub collect_history : ShCtx Double → ShCtx Double
    unfolding is_early average new_sample push_sample keep_totals
    collect_history sh =
        let averaged = average sh in
        if is_early sh then sh else keep_totals sh (push_sample (new_sample averaged) averaged)
