-- ===== src/Collect/System/Usage.antt =====
-- The processor usage of `ngx_http_monitoring_collect_cpu` (src/ngx_http_monitoring_collectors.c).
use ngx_http_monitoring_modu.Prelude.{
  ℕ, ◌+◌, ◌-◌, ◌*◌, ◌^◌, ◌≤◌, ◌<◌, ◌≡◌, ◌⊎◌, inl, inr, ap, ◌∙◌, arith, ltb, sub_word, mul_word,
  ◌&&◌, true,
}
use Prim.Native.Nat.{◌/◌}
use native.Mathlib.Nat.{div-le_of_le-mul, add-mul-div_left}
use native.Mathlib.Decide.{dec_le}
use ngx_http_monitoring_modu.Collect.System.{cpu_usage}

sub_word-exact : (a b : ℕ) → b ≤ a → a < 2 ^ 64 → sub_word a b ≡ a - b
sub_word-exact a b h l = omega arith

-- The difference of the differences, also where the idle time has gone back.
sub_word-busy :
    (dt idle prev : ℕ)
    → idle < 2 ^ 64
    → prev < 2 ^ 64
    → idle ≤ prev + dt
    → (dt + prev) - idle < 2 ^ 64
    → dt < 2 ^ 64
    → sub_word dt (sub_word idle prev) ≡ (dt + prev) - idle
sub_word-busy dt idle prev i p h l d = omega arith

module _ (prev_total prev_idle total idle old : ℕ) where
  cpu_usage-exact :
      1 ≤ prev_total
      → prev_total < total
      → total < 2 ^ 64
      → idle < 2 ^ 64
      → prev_idle < 2 ^ 64
      → idle ≤ prev_idle + (total - prev_total)
      → (((total - prev_total) + prev_idle) - idle) * 100000 < 2 ^ 64
      → cpu_usage prev_total prev_idle total idle old
        ≡ (((total - prev_total) + prev_idle) - idle) * 100000 / (total - prev_total)
  unfolding cpu_usage
  cpu_usage-exact h1 h2 h3 h4 h5 h6 h7 =
      let dt = sub_word-exact total prev_total (omega arith) h3 in
      let busy =
        sub_word-busy (total - prev_total) idle prev_idle h4 h5 h6 (omega arith) (omega arith) in
      let t1 : (ltb 0 prev_total && ltb prev_total total) ≡ true = ground arith in
      let t2 : ltb 0 (total - prev_total) ≡ true = ground arith in
      let m : mul_word (((total - prev_total) + prev_idle) - idle) 100000
          ≡ (((total - prev_total) + prev_idle) - idle) * 100000 =
        omega arith in
      rw (dt, busy, t1, t2) (ap (λ x. x / (total - prev_total)) m)

  -- The total time has grown, and the idle time by no more than it, or gone back; all times are words
  -- and the product is below `2 ^ 64`. Then the usage is the growth of the total less that of the
  -- idle time, in thousandths of a percent of the growth of the total. If the idle time has not gone
  -- back, this is at most 100 percent; if it has, it is 100 percent and, in addition, what the idle
  -- time has lost, in thousandths of a percent of the growth of the total.
  pub cpu_usage-bounds :
      1 ≤ prev_total
      → prev_total < total
      → total < 2 ^ 64
      → idle < 2 ^ 64
      → prev_idle < 2 ^ 64
      → idle ≤ prev_idle + (total - prev_total)
      → (((total - prev_total) + prev_idle) - idle) * 100000 < 2 ^ 64
      → (cpu_usage prev_total prev_idle total idle old
          ≡ (((total - prev_total) + prev_idle) - idle) * 100000 / (total - prev_total))
        × (((prev_idle ≤ idle) × (cpu_usage prev_total prev_idle total idle old ≤ 100000))
            ⊎ ((idle < prev_idle)
                × (cpu_usage prev_total prev_idle total idle old
                    ≡ (prev_idle - idle) * 100000 / (total - prev_total) + 100000)))
  cpu_usage-bounds h1 h2 h3 h4 h5 h6 h7 =
      let e = cpu_usage-exact h1 h2 h3 h4 h5 h6 h7 in
      (
        e,
        elim (dec_le prev_idle idle) [
          | yes h ↦ inl (h, rw (e) (div-le_of_le-mul (total - prev_total) (omega arith)))
          | no h ↦ inr (
            omega arith,
            e
                ∙ ap (λ x. x / (total - prev_total)) (omega arith)
                ∙ add-mul-div_left ((prev_idle - idle) * 100000) 100000 {y = total - prev_total}
                    (omega arith),
          )
        ],
      )
