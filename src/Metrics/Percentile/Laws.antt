-- ===== src/Metrics/Percentile/Laws.antt =====
-- Where a percentile falls, when the buckets do not add up to more than a word.
use ngx_http_monitoring_modu.Prelude.{
  ℕ, suc, ◌+◌, ◌≤◌, ◌<◌, ◌≡◌, refl, List, [], ◌∷◌, arith, length, get_or, take, word_mod, add_word,
  leb, Bool-cases, inl, inr, leb→le, ◌⊎◌,
}
use ngx_http_monitoring_modu.Metrics.Buckets.{latency_bounds}
use ngx_http_monitoring_modu.Metrics.Buckets.Laws.{Ascends}
use ngx_http_monitoring_modu.Metrics.Percentile.{
  sum_from, at_least_one, percentile_from, percentile,
}

abbrev pub sum : List ℕ → ℕ
sum [] = 0
sum (c ∷ buckets) = c + sum buckets

pub sum_from_lem :
    (total : ℕ) (buckets : List ℕ)
    → total + sum buckets < word_mod
    → sum_from total buckets ≡ total + sum buckets
unfolding sum_from
sum_from_lem total [] h = omega arith
sum_from_lem total (c ∷ buckets) h = ground (arith, sum_from_lem (add_word total c) buckets)

-- `v` is the bound of the first bucket at which the running count reaches `target`, or 30000 if
-- only the overflow bucket gets there.
abbrev pub Reaches : List ℕ → List ℕ → ℕ → ℕ → ℕ → Type 0
Reaches bounds buckets count target v =
    (k : ℕ) × (k ≤ length bounds)
    × (count + sum (take k buckets) < target)
    × (((k < length bounds)
          × (v ≡ get_or bounds k 0)
          × (target ≤ count + sum (take (suc k) buckets)))
        ⊎ ((k ≡ length bounds) × (v ≡ 30000)))

Reaches-suc :
    (b : ℕ) (bounds : List ℕ) (c : ℕ) (buckets : List ℕ) (count target v : ℕ)
    → Reaches bounds buckets (count + c) target v
    → Reaches (b ∷ bounds) (c ∷ buckets) count target v
Reaches-suc b bounds c buckets count target v (k, l, h, inl (l', e, r)) =
    (suc k, omega arith, omega arith, inl (omega arith, e, omega arith))
Reaches-suc b bounds c buckets count target v (k, l, h, inr (l', e)) =
    (suc k, omega arith, omega arith, inr (omega arith, e))

pub percentile_from-Reaches :
    (bounds buckets : List ℕ) (count target : ℕ)
    → length bounds ≤ length buckets
    → count + sum buckets < word_mod
    → count < target
    → Reaches bounds buckets count target (percentile_from bounds buckets count target)
unfolding percentile_from
percentile_from-Reaches [] buckets count target l w t =
    (0, omega arith, omega arith, inr (refl, refl))
percentile_from-Reaches (b ∷ bounds) [] count target l w t = absurd (omega arith)
percentile_from-Reaches (b ∷ bounds) (c ∷ buckets) count target l w t =
    let fits : add_word count c ≡ count + c = omega arith in
    rw fits (elim (Bool-cases (leb target (count + c))) [
      | inl e ↦
          rw e (0, omega arith, omega arith, inl (omega arith, refl, omega (arith, leb→le _ _ e)))
      | inr e ↦ rw e (
          Reaches-suc b bounds c buckets count target _ (
            percentile_from-Reaches bounds buckets (count + c) target (omega arith) (omega arith)
              (ground arith)))
    ])

-- Ascending bounds that do not pass the last one.
abbrev pub Within : ℕ → List ℕ → Type 0
Within top [] = Unit {0}
Within top (b ∷ bounds) = (b ≤ top) × Within top bounds

percentile_from-ge :
    (lo : ℕ) (bounds buckets : List ℕ) (count target : ℕ)
    → Ascends lo bounds
    → Within 30000 bounds
    → lo ≤ 30000
    → lo ≤ percentile_from bounds buckets count target
unfolding percentile_from
percentile_from-ge lo [] buckets count target a w h = omega arith
percentile_from-ge lo (b ∷ bounds) [] count target a w h = omega arith
percentile_from-ge lo (b ∷ bounds) (c ∷ buckets) count target a w h =
    ground (arith, percentile_from-ge b bounds buckets (add_word count c) target a.1 w.1)

percentile_from_mono :
    (lo : ℕ) (bounds buckets : List ℕ) (count t u : ℕ)
    → Ascends lo bounds
    → Within 30000 bounds
    → t ≤ u
    → percentile_from bounds buckets count t ≤ percentile_from bounds buckets count u
unfolding percentile_from
percentile_from_mono lo [] buckets count t u a w h = omega arith
percentile_from_mono lo (b ∷ bounds) [] count t u a w h = omega arith
percentile_from_mono lo (b ∷ bounds) (c ∷ buckets) count t u a w h = ground (
  arith,
  percentile_from_mono b bounds buckets (add_word count c) t u a.1 w.1 h,
  percentile_from-ge b bounds buckets (add_word count c) u a.1 w.1,
)

-- A higher percentile is never reported as a smaller latency, if the truncated product grows with
-- the percentile; so p50, p90, p95 and p99 ascend.
pub percentile_mono :
    (scaled : ℕ → ℕ → ℕ) (buckets : List ℕ) (p q : ℕ)
    → ((total : ℕ) → scaled total p ≤ scaled total q)
    → percentile scaled buckets p ≤ percentile scaled buckets q
unfolding percentile
percentile_mono scaled buckets p q h =
    let total = sum_from 0 buckets in
    ground (
      arith,
      h total,
      percentile_from_mono 0 latency_bounds buckets 0 (at_least_one (scaled total p))
          (at_least_one (scaled total q)) (omega arith) (omega arith),
    )
