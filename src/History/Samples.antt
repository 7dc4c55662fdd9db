-- ===== src/History/Samples.antt =====
-- The samples that are kept, over the operations on the ring: `ngx_http_monitoring_init_shm`
-- (src/ngx_http_monitoring_shm.c), `ngx_http_monitoring_collect_history`
-- (src/ngx_http_monitoring_collectors.c) and `ngx_http_monitoring_json_history`
-- (src/ngx_http_monitoring_json.c).
use native.Mathlib.Decide.{dec_lt}
use ngx_http_monitoring_modu.Prelude.{
  ℕ, suc, ◌+◌, ◌-◌, ◌%◌, ◌^◌, ◌≤◌, ◌<◌, ◌≡◌, refl, sym, ◌∙◌, ap, ap₂, subst, [], ◌∷◌, ◌++◌, arith,
  length, length-set, drop, true, false, Bool-cases, ◌⊎◌, inl, inr,
}
use ngx_http_monitoring_modu.State.{ShCtx, HistorySample}
use ngx_http_monitoring_modu.Http.{MainConf, Process}
use ngx_http_monitoring_modu.History.{
  push_sample, json_history, DoubleOps, average, new_sample, is_early, keep_totals, collect_history,
}
use ngx_http_monitoring_modu.History.Ring.{tabulate}
use ngx_http_monitoring_modu.History.Laws.{
  IsRing, kept, json_history-tabulate, push_sample-history, push_sample-write, push_sample-capacity,
  count-room, tabulate-room, count-full, tabulate-full,
}

predecessor : (n : ℕ) → 1 ≤ n → (m : ℕ) × (n ≡ suc m)
predecessor n h = (n - 1, omega arith)

module _ {Double : Type 0} (z : HistorySample Double) where
  -- The ring after a sample: well formed, and the reader gets the new sample behind the others,
  -- less the oldest one if the ring was full.
  abbrev pub Appends : ShCtx Double → ShCtx Double → HistorySample Double → Type 0
  Appends sh sh' s =
      IsRing sh'
      × (json_history z sh'
          ≡ drop (sh.history_count + 1 - sh.history_capacity) (json_history z sh) ++ s ∷ [])

  module _ (sh : ShCtx Double) (ring : IsRing sh) (bound : sh.history_write + 1 < 2 ^ 63)
      (s : HistorySample Double) where
    bound_before : sh.history_write < 2 ^ 63
    bound_before = omega arith

    pushed-IsRing :
        (push_sample s sh).history_count ≤ sh.history_capacity → IsRing (push_sample s sh)
    pushed-IsRing h = record {
      size =
          ap length (push_sample-history z sh ring bound_before s)
          ∙ length-set sh.history (sh.history_write % sh.history_capacity) s
          ∙ ring.size;
      capacity_pos =
          omega (arith, ring.capacity_pos, push_sample-capacity z sh ring bound_before s);
      capacity_le = omega (arith, ring.capacity_le, push_sample-capacity z sh ring bound_before s);
      count_le = omega (arith, h, push_sample-capacity z sh ring bound_before s);
    }

    pushed-tabulate :
        IsRing (push_sample s sh)
        → json_history z (push_sample s sh)
          ≡ tabulate (push_sample s sh).history_count 0 (kept z (push_sample s sh))
    pushed-tabulate r =
        json_history-tabulate z (push_sample s sh) r
          (omega (arith, push_sample-write z sh ring bound_before s))

    push_sample-Appends : Appends sh (push_sample s sh) s
    push_sample-Appends = elim (dec_lt sh.history_count sh.history_capacity) [
      | yes room ↦
          let c = count-room z sh ring bound_before s room in
          let r = pushed-IsRing (omega arith) in
          let d : sh.history_count + 1 - sh.history_capacity ≡ 0 = omega arith in
          let c' : (push_sample s sh).history_count ≡ suc sh.history_count = omega arith in
          (
            r,
            pushed-tabulate r
                ∙ ap (λ n. tabulate n 0 (kept z (push_sample s sh))) c'
                ∙ tabulate-room z sh ring bound_before s room
                ∙ ap₂ (λ n xs. drop n xs ++ s ∷ []) (sym d)
                    (sym (json_history-tabulate z sh ring bound_before)),
          )
      | no full ↦
          let k = ring.count_le in
          let f : sh.history_count ≡ sh.history_capacity = omega arith in
          let (n, e) = predecessor sh.history_capacity ring.capacity_pos in
          let c = count-full z sh ring bound_before s n e f in
          let r = pushed-IsRing (omega arith) in
          let d : sh.history_count + 1 - sh.history_capacity ≡ 1 = omega arith in
          (
            r,
            pushed-tabulate r
                ∙ ap (λ m. tabulate m 0 (kept z (push_sample s sh))) (c ∙ f ∙ e)
                ∙ tabulate-full z sh ring bound_before s n e f
                ∙ ap₂ (λ m xs. drop m xs ++ s ∷ []) (sym d)
                    (ap (λ m. tabulate m 0 (kept z sh)) (sym (f ∙ e))
                      ∙ sym (json_history-tabulate z sh ring bound_before)),
          )
    ]

  module _ (ops : DoubleOps Double) (scaled : ℕ → ℕ → ℕ) (conf : MainConf) (p : Process)
      (sh : ShCtx Double) where
    collect_history-early :
        is_early ops scaled conf p sh ≡ true → collect_history ops scaled conf p sh ≡ sh
    unfolding collect_history
    collect_history-early e = rw (e)

    abbrev averaged : ShCtx Double
    averaged = average ops scaled conf p sh

    abbrev sample : HistorySample Double
    sample = new_sample ops scaled conf p averaged

    abbrev pushed : ShCtx Double
    pushed = push_sample sample averaged

    collect_history-due :
        is_early ops scaled conf p sh ≡ false
        → collect_history ops scaled conf p sh ≡ keep_totals ops scaled conf p sh pushed
    unfolding collect_history
    collect_history-due e = rw (e)

    average-IsRing : IsRing sh → IsRing averaged
    unfolding average
    average-IsRing ring = record {
      size = ring.size;
      capacity_pos = ring.capacity_pos;
      capacity_le = ring.capacity_le;
      count_le = ring.count_le;
    }

    average-Appends : {sh' : ShCtx Double} → Appends averaged sh' sample → Appends sh sh' sample
    unfolding average json_history
    average-Appends a = a

    keep_totals-Appends :
        Appends sh pushed sample → Appends sh (keep_totals ops scaled conf p sh pushed) sample
    unfolding keep_totals json_history
    keep_totals-Appends (ring, e) = (
      record {
        size = ring.size;
        capacity_pos = ring.capacity_pos;
        capacity_le = ring.capacity_le;
        count_le = ring.count_le;
      },
      e,
    )

    average-write : averaged.history_write ≡ sh.history_write
    unfolding average
    average-write = refl

    -- In a well formed ring that was written to fewer than 2^63 - 1 times: within `resolution`
    -- milliseconds of the last sample the zone is unchanged; later the new sample comes behind the
    -- samples that were kept, less the oldest one if the ring was full, and the ring is well formed
    -- again.
    pub collect_history-Appends :
        IsRing sh
        → sh.history_write + 1 < 2 ^ 63
        → (is_early ops scaled conf p sh ≡ true × collect_history ops scaled conf p sh ≡ sh)
          ⊎ (is_early ops scaled conf p sh ≡ false
              × Appends sh
                  (collect_history ops scaled conf p sh)
                  (new_sample ops scaled conf p (average ops scaled conf p sh)))
    collect_history-Appends ring bound = elim (Bool-cases (is_early ops scaled conf p sh)) [
      | inl e ↦ inl (e, collect_history-early e)
      | inr e ↦
          let a =
            push_sample-Appends averaged (average-IsRing ring) (omega (arith, average-write))
              sample in
          inr (
            e,
            subst (λ x. Appends sh x sample) (sym (collect_history-due e))
                (keep_totals-Appends (average-Appends a)),
          )
    ]
