-- ===== src/Collect/Timer/Sampled.antt =====
-- What a collection adds to the history (src/ngx_http_monitoring_collectors.c).
use ngx_http_monitoring_modu.Prelude.{
  ℕ, ◌+◌, ◌-◌, ◌^◌, ◌<◌, ◌≡◌, refl, sym, ap, ap₂, ◌∙◌, arith, true, false, ◌⊎◌, inl, inr, [], ◌∷◌,
  ◌++◌, drop, length,
}
use ngx_http_monitoring_modu.State.{ShCtx, HistorySample}
use ngx_http_monitoring_modu.Http.{MainConf, Process}
use ngx_http_monitoring_modu.History.{
  DoubleOps, json_history, is_early, new_sample, average, collect_history,
}
use ngx_http_monitoring_modu.History.Laws.{IsRing}
use ngx_http_monitoring_modu.History.Samples.{Appends, collect_history-Appends}
use ngx_http_monitoring_modu.Collect.Libc.{Libc}
use ngx_http_monitoring_modu.Collect.Timer.{leave}
use ngx_http_monitoring_modu.Collect.Timer.Views.{Former, former}

module _ {Double : Type 0} (z : HistorySample Double) where
  json_history-former :
      (a b : ShCtx Double) → former a ≡ former b → json_history z a ≡ json_history z b
  unfolding json_history
  json_history-former a b e =
      ap
        (λ (f : Former Double). json_history z (record a {
          history_write = f.history_write;
          history_count = f.history_count;
          history_capacity = f.history_capacity;
          history = f.history;
        }))
        e

  IsRing-former : (a b : ShCtx Double) → former a ≡ former b → IsRing b → IsRing a
  IsRing-former a b e ring =
      let s = ap (λ (f : Former Double). f.history) e in
      let c = ap (λ (f : Former Double). f.history_capacity) e in
      let n = ap (λ (f : Former Double). f.history_count) e in
      record {
        size = ap length s ∙ ring.size;
        capacity_pos = omega (arith, c, ring.capacity_pos);
        capacity_le = omega (arith, c, ring.capacity_le);
        count_le = omega (arith, n, c, ring.count_le);
      }

  Appends-former :
      (a b x : ShCtx Double) (s : HistorySample Double)
      → former a ≡ former b
      → Appends z a x s
      → Appends z b x s
  Appends-former a b x s e (ring, h) = (
    ring,
    h
        ∙ ap₂ (λ n xs. drop n xs ++ s ∷ [])
            (ap (λ (f : Former Double). f.history_count + 1 - f.history_capacity) e)
            (json_history-former a b e),
  )

  module _ (libc : Libc Double) (ops : DoubleOps Double) (scaled : ℕ → ℕ → ℕ) (conf : MainConf)
      (p : Process) where
    is_early-former :
        (a b : ShCtx Double)
        → former a ≡ former b
        → is_early ops scaled conf p a ≡ is_early ops scaled conf p b
    unfolding is_early
    is_early-former a b e =
        ap
          (λ (f : Former Double).
            is_early ops scaled conf p (record a { prev_history_msec = f.prev_history_msec }))
          e

    -- Within `resolution` milliseconds of the last sample the reader gets the samples of `sh` from
    -- `ran`; later, the sample of the measured zone `m` comes behind them, less the oldest one if the
    -- ring was full.
    abbrev pub Samples : ShCtx Double → ShCtx Double → ShCtx Double → Type 0
    Samples sh m ran =
        ((is_early ops scaled conf p sh ≡ true) × (json_history z ran ≡ json_history z sh))
        ⊎ ((is_early ops scaled conf p sh ≡ false)
            × Appends z sh ran (new_sample ops scaled conf p (average ops scaled conf p m)))

    -- The end of the collection, after the history.
    leave-Appends :
        (m : ShCtx Double) (s : HistorySample Double)
        → Appends z m (collect_history ops scaled conf p m) s
        → Appends z m (leave libc ops scaled conf p m) s
    unfolding leave json_history
    leave-Appends m s (ring, e) = (
      record {
        size = ring.size;
        capacity_pos = ring.capacity_pos;
        capacity_le = ring.capacity_le;
        count_le = ring.count_le;
      },
      e,
    )

    leave-json_history :
        (m : ShCtx Double)
        → json_history z (leave libc ops scaled conf p m)
          ≡ json_history z (collect_history ops scaled conf p m)
    unfolding leave json_history
    leave-json_history m = refl

    pub leave-Samples :
        (sh m : ShCtx Double)
        → former m ≡ former sh
        → IsRing sh
        → sh.history_write + 1 < 2 ^ 63
        → Samples sh m (leave libc ops scaled conf p m)
    leave-Samples sh m e ring bound =
        let w = ap (λ (f : Former Double). f.history_write) e in
        elim (collect_history-Appends z ops scaled conf p m (IsRing-former m sh e ring)
          (omega (arith, w, bound))) [
            | inl (b, k) ↦ inl (
              sym (is_early-former m sh e) ∙ b,
              leave-json_history m ∙ ap (json_history z) k ∙ json_history-former m sh e,
            )
            | inr (b, a) ↦ inr (
              sym (is_early-former m sh e) ∙ b,
              Appends-former m sh (leave libc ops scaled conf p m) _ e (leave-Appends m _ a),
            )
          ]
