-- ===== src/Metrics/Percentile/Samples.antt =====
-- The percentile against the latencies that were recorded: which share of the requests it covers.
use ngx_http_monitoring_modu.Prelude.{
  ℕ, zero, suc, ◌+◌, ◌≤◌, ◌<◌, ◌≡◌, ◌≢◌, refl, List, [], ◌∷◌, arith, length, get_or, take,
  replicate, length-set, word_mod, add_word, leb, ne→==, inl, inr, ◌⊎◌, if◌then◌else◌,
}
use native.Mathlib.Decide.{dec_lt}
use ngx_http_monitoring_modu.Metrics.Buckets.{latency_bounds, latency_buckets, latency_bucket, bump}
use ngx_http_monitoring_modu.Metrics.Buckets.Laws.{Ascends, latency_bucket-le_iff}
use ngx_http_monitoring_modu.Metrics.Percentile.{sum_from, at_least_one, percentile}
use ngx_http_monitoring_modu.Metrics.Percentile.Laws.{
  sum, sum_from_lem, Reaches, percentile_from-Reaches,
}

-- The latency histogram after the requests with these latencies, newest first.
pub histogram : List ℕ → List ℕ
histogram [] = replicate latency_buckets 0
histogram (ms ∷ samples) = bump (histogram samples) (latency_bucket ms)

-- How many of the latencies are within a bound.
abbrev pub count_within : ℕ → List ℕ → ℕ
count_within bound [] = 0
count_within bound (ms ∷ samples) = (if leb ms bound then 1 else 0) + count_within bound samples

length-histogram : (samples : List ℕ) → length (histogram samples) ≡ latency_buckets
unfolding histogram
length-histogram [] = refl
length-histogram (ms ∷ samples) = omega (
  arith,
  length-set (histogram samples) (latency_bucket ms)
      (add_word (get_or (histogram samples) (latency_bucket ms) 0) 1),
  length-histogram samples,
)

get_or-le-sum : (xs : List ℕ) (i : ℕ) → get_or xs i 0 ≤ sum xs
get_or-le-sum [] i = omega arith
get_or-le-sum (x ∷ xs) zero = omega arith
get_or-le-sum (x ∷ xs) (suc i) = omega (arith, get_or-le-sum xs i)

take-bump :
    (xs : List ℕ) (k i : ℕ)
    → i < length xs
    → sum xs + 1 < word_mod
    → sum (take k (bump xs i)) ≡ (if leb k i then 0 else 1) + sum (take k xs)
take-bump [] k i l w = absurd (omega arith)
take-bump (x ∷ xs) zero i l w = ground arith
take-bump (x ∷ xs) (suc k) zero l w = ground arith
take-bump (x ∷ xs) (suc k) (suc i) l w = ground (arith, take-bump xs k i)

pub sum-bump :
    (xs : List ℕ) (i : ℕ) → i < length xs → sum xs + 1 < word_mod → sum (bump xs i) ≡ sum xs + 1
sum-bump [] i l w = absurd (omega arith)
sum-bump (x ∷ xs) zero l w = ground arith
sum-bump (x ∷ xs) (suc i) l w = ground (arith, sum-bump xs i)

sum-histogram :
    (samples : List ℕ) → length samples < word_mod → sum (histogram samples) ≡ length samples
unfolding histogram
sum-histogram [] h = refl
sum-histogram (ms ∷ samples) h = omega (
  arith,
  sum-histogram samples (omega arith),
  sum-bump (histogram samples) (latency_bucket ms)
      (omega (arith, length-histogram samples, (latency_bucket-le_iff ms 0 (omega arith)).0))
      (omega (arith, sum-histogram samples (omega arith))),
)

sum-take-zeros : (k n : ℕ) → sum (take k (replicate n 0)) ≡ 0
sum-take-zeros zero n = refl
sum-take-zeros (suc k) zero = refl
sum-take-zeros (suc k) (suc n) = omega (arith, sum-take-zeros k n)

-- The running count of the source is the number of latencies within the bound.
take-histogram :
    (samples : List ℕ) (j : ℕ)
    → length samples < word_mod
    → j < 13
    → sum (take (suc j) (histogram samples)) ≡ count_within (get_or latency_bounds j 0) samples
unfolding histogram
take-histogram [] j h l = sum-take-zeros (suc j) latency_buckets
take-histogram (ms ∷ samples) j h l = ground (
  arith,
  take-histogram samples j,
  take-bump (histogram samples) (suc j) (latency_bucket ms)
      (omega (arith, length-histogram samples, (latency_bucket-le_iff ms 0 (omega arith)).0))
      (omega (arith, sum-histogram samples (omega arith))),
  (latency_bucket-le_iff ms j l).1,
)

sum-take_mono : (xs : List ℕ) (j k : ℕ) → j ≤ k → sum (take j xs) ≤ sum (take k xs)
sum-take_mono xs zero k h = omega arith
sum-take_mono [] (suc j) k h = omega arith
sum-take_mono (x ∷ xs) (suc j) zero h = absurd (omega arith)
sum-take_mono (x ∷ xs) (suc j) (suc k) h = omega (arith, sum-take_mono xs j k (omega arith))

head-le :
    (lo : ℕ) (bounds : List ℕ) (k : ℕ)
    → Ascends lo bounds
    → k < length bounds
    → lo ≤ get_or bounds k 0
head-le lo [] k a h = absurd (omega arith)
head-le lo (b ∷ bounds) zero a h = omega arith
head-le lo (b ∷ bounds) (suc k) a h = omega (arith, head-le b bounds k a.1 (omega arith))

bounds_mono :
    (lo : ℕ) (bounds : List ℕ) (j k : ℕ)
    → Ascends lo bounds
    → j ≤ k
    → k < length bounds
    → get_or bounds j 0 ≤ get_or bounds k 0
bounds_mono lo [] j k a h l = absurd (omega arith)
bounds_mono lo (b ∷ bounds) zero zero a h l = omega arith
bounds_mono lo (b ∷ bounds) zero (suc k) a h l = head-le b bounds k a.1 (omega arith)
bounds_mono lo (b ∷ bounds) (suc j) zero a h l = absurd (omega arith)
bounds_mono lo (b ∷ bounds) (suc j) (suc k) a h l =
    bounds_mono b bounds j k a.1 (omega arith) (omega arith)

-- `v` covers `target` of the latencies, or is the last bound while fewer are within it; and no
-- smaller bound of the table covers as many.
pub record Covers (samples : List ℕ) (target v : ℕ) : Type 0 where
  pub reached :
      (target ≤ count_within v samples) ⊎ ((v ≡ 30000) × (count_within 30000 samples < target))
  pub least :
      (j : ℕ)
      → j < 13
      → get_or latency_bounds j 0 < v
      → count_within (get_or latency_bounds j 0) samples < target

below-suc :
    (j k : ℕ) → j < 13 → k < 13 → get_or latency_bounds j 0 < get_or latency_bounds k 0 → suc j ≤ k
below-suc j k j< k< below = elim (dec_lt j k) [
  | yes p ↦ p
  | no p ↦ absurd (omega (arith, bounds_mono 0 latency_bounds k j (omega arith) (omega arith) j<))
]

Covers-of_Reaches :
    (samples : List ℕ) (target v : ℕ)
    → length samples < word_mod
    → Reaches latency_bounds (histogram samples) 0 target v
    → Covers samples target v
Covers-of_Reaches samples target v w (k, l, h, inl (k<, e, r)) = record {
  reached = inl (rw e (omega (arith, take-histogram samples k w k<)));
  least = λ j j< below. omega (
    arith,
    take-histogram samples j w j<,
    sum-take_mono (histogram samples) (suc j) k (below-suc j k (omega arith) k< (rw e at below)),
  );
}
Covers-of_Reaches samples target v w (k, l, h, inr (k=, e)) = record {
  reached = inr (
    e,
    omega (
      arith,
      take-histogram samples 12 w (omega arith),
      sum-take_mono (histogram samples) 13 k (omega arith),
    ),
  );
  least = λ j j< below. omega (
    arith,
    take-histogram samples j w j<,
    sum-take_mono (histogram samples) (suc j) k (omega arith),
  );
}

total-histogram :
    (samples : List ℕ) → length samples < word_mod → sum_from 0 (histogram samples) ≡ length samples
total-histogram samples w = omega (
  arith,
  sum-histogram samples w,
  sum_from_lem 0 (histogram samples) (omega (arith, sum-histogram samples w)),
)

-- With fewer than 2^64 requests recorded and at least one, the percentile covers the target number
-- of latencies, one at least; where the overflow bucket is needed for that, it is 30000 instead; and
-- every smaller bound covers fewer.
pub percentile-Covers :
    (scaled : ℕ → ℕ → ℕ) (samples : List ℕ) (p : ℕ)
    → samples ≢ []
    → length samples < word_mod
    → Covers samples
        (at_least_one (scaled (length samples) p))
        (percentile scaled (histogram samples) p)
unfolding percentile
percentile-Covers scaled [] p ne w = absurd (ne refl)
percentile-Covers scaled (ms ∷ samples) p ne w =
    rw (total-histogram (ms ∷ samples) w, ne→== (length (ms ∷ samples)) 0 (omega arith))
      (Covers-of_Reaches (ms ∷ samples) _ _ w (
        percentile_from-Reaches latency_bounds (histogram (ms ∷ samples)) 0
          (at_least_one (scaled (length (ms ∷ samples)) p))
          (omega (arith, length-histogram (ms ∷ samples)))
          (omega (arith, sum-histogram (ms ∷ samples) w)) (ground arith)))
