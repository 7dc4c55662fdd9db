-- ===== src/History/Start.antt =====
-- The zone after the start and after a reload: `ngx_http_monitoring_init_shm`
-- (src/ngx_http_monitoring_shm.c).
use ngx_http_monitoring_modu.Prelude.{
  ◌≤◌, ◌≡◌, refl, sym, ap, [], arith, length, length-replicate, Option, none, some, Bool, true,
  false, ltb, min, Bool-cases, ◌==◌, inl, inr,
}
use ngx_http_monitoring_modu.State.{ShCtx, HistorySample, history_max}
use ngx_http_monitoring_modu.State.Zero.{zero_sample}
use ngx_http_monitoring_modu.Http.{MainConf}
use ngx_http_monitoring_modu.History.{capacity_for, resize, init_shm, json_history}
use ngx_http_monitoring_modu.History.Laws.{IsRing}

capacity_for-bounds :
    (conf : MainConf) → (1 ≤ capacity_for conf) × (capacity_for conf ≤ history_max)
unfolding capacity_for
capacity_for-bounds conf = ground arith

module _ {Double : Type 0} (conf : MainConf) where
  resize-IsRing : (sh : ShCtx Double) → length sh.history ≡ history_max → IsRing (resize conf sh)
  unfolding resize
  resize-IsRing sh h = record {
    size = h;
    capacity_pos = (capacity_for-bounds conf).0;
    capacity_le = (capacity_for-bounds conf).1;
    count_le = ground arith;
  }

  resize_id :
      (sh : ShCtx Double)
      → IsRing sh
      → sh.history_capacity ≡ capacity_for conf
      → resize conf sh ≡ sh
  unfolding resize
  resize_id sh ring e =
      let k = ring.count_le in
      let b : ltb sh.history_capacity sh.history_count ≡ false = ground arith in rw (sym e, b)

  json_history-empty :
      (z : HistorySample Double) (sh : ShCtx Double) → sh.history_count ≡ 0 → json_history z sh ≡ []
  unfolding json_history
  json_history-empty z sh e = elim (Bool-cases (min sh.history_capacity history_max == 0)) [
    | inl b ↦ rw (b)
    | inr b ↦ rw (b, e)
  ]

  module _ (d : Double) (z : HistorySample Double) (sh : ShCtx Double) where
    -- With a zone `sh`, the array of samples of its type in it, from the old configuration or in
    -- memory that exists, the start gives a well formed ring, whatever else it finds. In new memory
    -- it gives a well formed ring without a sample. Memory without a zone, and no memory for one,
    -- are errors.
    pub init_shm-IsRing :
        (attached : Option (Option (ShCtx Double))) (allocated : Bool)
        → length sh.history ≡ history_max
        → ((sh' : ShCtx Double) × (init_shm d conf (some sh) attached allocated ≡ some sh')
            × IsRing sh')
          × ((sh' : ShCtx Double) × (init_shm d conf none (some (some sh)) allocated ≡ some sh')
              × IsRing sh')
          × ((sh' : ShCtx Double) × (init_shm d conf none none true ≡ some sh')
              × IsRing sh'
              × (json_history z sh' ≡ []))
          × (init_shm d conf none (some none) allocated ≡ none)
          × (init_shm d conf none none false ≡ none)
    unfolding init_shm
    init_shm-IsRing attached allocated size = (
      (resize conf sh, refl, resize-IsRing sh size),
      (resize conf sh, refl, resize-IsRing sh size),
      (
        _,
        refl,
        record {
          size = length-replicate history_max (zero_sample d);
          capacity_pos = (capacity_for-bounds conf).0;
          capacity_le = (capacity_for-bounds conf).1;
          count_le = omega arith;
        },
        json_history-empty z _ refl,
      ),
      refl,
      refl,
    )

    -- A reload with the capacity that a well formed ring has leaves the whole zone as it is, whether
    -- the zone comes from the old configuration or from memory that exists.
    pub init_shm-resumes :
        (attached : Option (Option (ShCtx Double))) (allocated : Bool)
        → IsRing sh
        → sh.history_capacity ≡ capacity_for conf
        → (init_shm d conf (some sh) attached allocated ≡ some sh)
          × (init_shm d conf none (some (some sh)) allocated ≡ some sh)
    unfolding init_shm
    init_shm-resumes attached allocated ring e =
        let kept = ap some (resize_id sh ring e) in (kept, kept)
