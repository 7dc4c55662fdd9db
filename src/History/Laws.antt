-- ===== src/History/Laws.antt =====
-- The history is a ring: the reader gets the latest samples, the oldest first
-- (src/ngx_http_monitoring_collectors.c, src/ngx_http_monitoring_json.c,
-- src/ngx_http_monitoring_shm.c).
use native.Mathlib.Nat.{mod-lt}
use ngx_http_monitoring_modu.Prelude.{
  ℕ, zero, suc, ◌+◌, ◌-◌, ◌%◌, ◌^◌, ◌≤◌, ◌<◌, ◌≡◌, ◌≢◌, refl, sym, ◌∙◌, ap, ap₂, [], ◌∷◌, ◌++◌,
  arith, length, get_or, get_or-set_self, get_or-set_ne, drop, min, set, true, false, ltb, ne→==,
  if◌then◌else◌, add_word, sub_word,
}
use ngx_http_monitoring_modu.State.{ShCtx, HistorySample, history_max}
use ngx_http_monitoring_modu.History.{writer_capacity, push_sample, samples_from, json_history}
use ngx_http_monitoring_modu.History.Ring.{
  mod-add-capacity, mod-add-ne, tabulate, tabulate_ext, tabulate-suc, tabulate_shift,
}

module _ {Double : Type 0} where
  -- The capacity lies within the array, and the count within the capacity.
  pub record IsRing (sh : ShCtx Double) : Type 0 where
    pub size : length sh.history ≡ history_max
    pub capacity_pos : 1 ≤ sh.history_capacity
    pub capacity_le : sh.history_capacity ≤ history_max
    pub count_le : sh.history_count ≤ sh.history_capacity

  -- The position of the `i`-th sample that is kept.
  abbrev pub position : ShCtx Double → ℕ → ℕ
  position sh i =
      (sh.history_write + (sh.history_capacity - sh.history_count) + i) % sh.history_capacity

  abbrev pub kept : HistorySample Double → ShCtx Double → ℕ → HistorySample Double
  kept z sh i = get_or sh.history (position sh i) z

  module _ (z : HistorySample Double) (sh : ShCtx Double) (ring : IsRing sh)
      (bound : sh.history_write < 2 ^ 63) where
    samples_from-tabulate :
        (n i : ℕ)
        → i + n ≤ sh.history_count
        → samples_from z sh sh.history_capacity sh.history_count n i ≡ tabulate n i (kept z sh)
    unfolding samples_from
    samples_from-tabulate zero i h = refl
    samples_from-tabulate (suc n) i h =
        let c = ring.capacity_le in
        let k = ring.count_le in
        let e : add_word (sub_word (add_word sh.history_write sh.history_capacity) sh.history_count)
              i
            ≡ sh.history_write + (sh.history_capacity - sh.history_count) + i =
          omega arith in
        ap₂ ◌∷◌ (ap (λ j. get_or sh.history (j % sh.history_capacity) z) e)
          (samples_from-tabulate n (i + 1) (omega arith))

    pub json_history-tabulate : json_history z sh ≡ tabulate sh.history_count 0 (kept z sh)
    unfolding json_history
    json_history-tabulate =
        let p = ring.capacity_pos in
        let c = ring.capacity_le in
        let k = ring.count_le in
        let e : min sh.history_count history_max ≡ sh.history_count = omega arith in
        let f : min sh.history_capacity history_max ≡ sh.history_capacity = omega arith in
        rw (e, f, ne→== sh.history_capacity 0 (omega arith))
          (samples_from-tabulate sh.history_count 0 (omega arith))

    writer_capacity-ring : writer_capacity sh ≡ sh.history_capacity
    writer_capacity-ring =
        let p = ring.capacity_pos in
        let c = ring.capacity_le in
        let a : ltb history_max sh.history_capacity ≡ false = ground arith in
        rw (ne→== sh.history_capacity 0 (omega arith), a)

    module _ (s : HistorySample Double) where
      abbrev pushed : ShCtx Double
      pushed = push_sample s sh

      pub push_sample-history :
          pushed.history ≡ set sh.history (sh.history_write % sh.history_capacity) s
      unfolding push_sample
      push_sample-history = ap (λ c. set sh.history (sh.history_write % c) s) writer_capacity-ring

      pub push_sample-write : pushed.history_write ≡ sh.history_write + 1
      unfolding push_sample
      push_sample-write = omega arith

      pub push_sample-capacity : pushed.history_capacity ≡ sh.history_capacity
      unfolding push_sample
      push_sample-capacity = refl

      push_sample-count : pushed.history_count ≡ (
          if ltb sh.history_count sh.history_capacity
          then sh.history_count + 1
          else sh.history_count)
      unfolding push_sample
      push_sample-count =
          let c = ring.capacity_le in
          let k = ring.count_le in
          let e : add_word sh.history_count 1 ≡ sh.history_count + 1 = omega arith in
          rw (writer_capacity-ring, e) refl

      -- The new sample stands at the write position.
      kept-new :
          (i : ℕ) → position pushed i ≡ sh.history_write % sh.history_capacity → kept z pushed i ≡ s
      kept-new i e =
          let p = ring.capacity_pos in
          let c = ring.capacity_le in
          let m : sh.history_write % sh.history_capacity < sh.history_capacity =
            mod-lt sh.history_write (omega arith) in
          let l : sh.history_write % sh.history_capacity < length sh.history =
            omega (arith, ring.size) in
          ap (λ j. get_or pushed.history j z) e
          ∙ ap (λ xs. get_or xs (sh.history_write % sh.history_capacity) z) push_sample-history
          ∙ get_or-set_self sh.history (sh.history_write % sh.history_capacity) s z l

      -- The other samples are as they were.
      kept-old :
          (i j : ℕ)
          → position pushed i ≡ position sh j
          → position sh j ≢ sh.history_write % sh.history_capacity
          → kept z pushed i ≡ kept z sh j
      kept-old i j e n =
          ap (λ k. get_or pushed.history k z) e
          ∙ ap (λ xs. get_or xs (position sh j) z) push_sample-history
          ∙ get_or-set_ne sh.history (sh.history_write % sh.history_capacity) (position sh j) s z
              (λ q. n (sym q))

      position-pushed :
          (i count n : ℕ)
          → pushed.history_count ≡ count
          → sh.history_write + 1 + (sh.history_capacity - count) + i ≡ n
          → position pushed i ≡ n % sh.history_capacity
      position-pushed i count n h e =
          rw (push_sample-write, push_sample-capacity, h) (ap (λ m. m % sh.history_capacity) e)

      -- In a ring that is not full, every sample keeps its place and the new one comes last.
      module _ (room : sh.history_count < sh.history_capacity) where
        pub count-room : pushed.history_count ≡ sh.history_count + 1
        count-room =
            let e : ltb sh.history_count sh.history_capacity ≡ true = ground arith in
            push_sample-count ∙ ap (λ b. if b then sh.history_count + 1 else sh.history_count) e

        pub tabulate-room :
            tabulate (suc sh.history_count) 0 (kept z pushed)
            ≡ tabulate sh.history_count 0 (kept z sh) ++ s ∷ []
        tabulate-room =
            tabulate-suc sh.history_count 0 (kept z pushed)
            ∙ ap₂ (λ xs x. xs ++ x ∷ [])
                (tabulate_ext sh.history_count 0 (kept z pushed) (kept z sh) (λ j a b.
                  kept-old j j (position-pushed j (sh.history_count + 1) _ count-room (omega arith))
                    (λ q.
                      let e : sh.history_write + (sh.history_capacity - sh.history_count) + j
                          ≡ sh.history_write + (sh.history_capacity - sh.history_count + j) =
                        omega arith in
                      mod-add-ne sh.history_write (sh.history_capacity - sh.history_count + j)
                        sh.history_capacity (omega arith) (omega arith)
                        (ap (λ m. m % sh.history_capacity) (sym e) ∙ q))))
                (kept-new (0 + sh.history_count) (
                  position-pushed (0 + sh.history_count) (sh.history_count + 1)
                    (sh.history_write + sh.history_capacity) count-room (omega arith)
                  ∙ mod-add-capacity sh.history_write sh.history_capacity))

      -- In a full ring, the oldest sample gives way.
      module _ (n : ℕ) (cap : sh.history_capacity ≡ suc n)
          (full : sh.history_count ≡ sh.history_capacity) where
        pub count-full : pushed.history_count ≡ sh.history_count
        count-full =
            let e : ltb sh.history_count sh.history_capacity ≡ false = ground arith in
            push_sample-count ∙ ap (λ b. if b then sh.history_count + 1 else sh.history_count) e

        pub tabulate-full :
            tabulate (suc n) 0 (kept z pushed) ≡ drop 1 (tabulate (suc n) 0 (kept z sh)) ++ s ∷ []
        tabulate-full =
            tabulate-suc n 0 (kept z pushed)
            ∙ ap₂ (λ xs x. xs ++ x ∷ [])
                (tabulate_ext n 0 (kept z pushed) (λ j. kept z sh (j + 1))
                    (λ j a b.
                      kept-old j (j + 1)
                        (position-pushed j sh.history_count _ count-full (omega arith))
                        (λ q.
                          let e : sh.history_write
                                + (sh.history_capacity - sh.history_count)
                                + (j + 1)
                              ≡ sh.history_write + (j + 1) =
                            omega arith in
                          mod-add-ne sh.history_write (j + 1) sh.history_capacity (omega arith)
                            (omega arith) (ap (λ m. m % sh.history_capacity) (sym e) ∙ q)))
                  ∙ sym (tabulate_shift n 0 (kept z sh)))
                (kept-new (0 + n) (
                  position-pushed (0 + n) sh.history_count (sh.history_write + sh.history_capacity)
                    count-full (omega arith)
                  ∙ mod-add-capacity sh.history_write sh.history_capacity))
