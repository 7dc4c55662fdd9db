-- ===== src/Config/Limits.antt =====
-- Which main configurations are accepted (`ngx_http_monitoring_init_main_conf`,
-- src/ngx_http_monitoring_module.c).
use ngx_http_monitoring_modu.Prelude.{
  ℕ, true, false, ◌≤◌, ◌≡◌, ◌⊎◌, arith, none, some, inl, inr, refl, Bool-cases, ltb, ◌||◌, ◌==◌,
}
use ngx_http_monitoring_modu.State.{top_urls_max}
use ngx_http_monitoring_modu.Http.{MainConf}
use ngx_http_monitoring_modu.Config.{
  MainSettings, min_interval, with_defaults, check_limits, init_main_conf,
}

-- Both intervals are long enough, and the table of URLs has between 1 and 256 entries.
pub record IsWithinLimits (c : MainConf) : Type 0 where
  pub refresh_interval : min_interval ≤ c.refresh_interval
  pub resolution : min_interval ≤ c.resolution
  pub max_top_urls_pos : 1 ≤ c.max_top_urls
  pub max_top_urls_le : c.max_top_urls ≤ top_urls_max

too_short : (n m : ℕ) → ltb n m ≡ true → ¬ (m ≤ n)
too_short n m h = ground arith

long_enough : (n m : ℕ) → ltb n m ≡ false → m ≤ n
long_enough n m h = ground arith

out_of_range : (n m : ℕ) → (n == 0 || ltb m n) ≡ true → ¬ ((1 ≤ n) × (n ≤ m))
out_of_range n m h = ground arith

in_range : (n m : ℕ) → (n == 0 || ltb m n) ≡ false → (1 ≤ n) × (n ≤ m)
in_range n m h = ground arith

check_limits-IsWithinLimits :
    (c : MainConf)
    → ((check_limits c ≡ some c) × IsWithinLimits c)
      ⊎ ((check_limits c ≡ none) × (¬ IsWithinLimits c))
unfolding check_limits
check_limits-IsWithinLimits c = elim (Bool-cases (ltb c.refresh_interval min_interval)) [
  | inl a ↦ inr (rw a refl, λ v. too_short c.refresh_interval min_interval a v.refresh_interval)
  | inr a ↦ elim (Bool-cases (ltb c.resolution min_interval)) [
    | inl b ↦ inr (rw (a, b) refl, λ v. too_short c.resolution min_interval b v.resolution)
    | inr b ↦ elim (Bool-cases (c.max_top_urls == 0 || ltb top_urls_max c.max_top_urls)) [
      | inl d ↦ inr (
        rw (a, b, d) refl,
        λ v. out_of_range c.max_top_urls top_urls_max d (v.max_top_urls_pos, v.max_top_urls_le),
      )
      | inr d ↦ inl (
        rw (a, b, d) refl,
        record {
          refresh_interval = long_enough c.refresh_interval min_interval a;
          resolution = long_enough c.resolution min_interval b;
          max_top_urls_pos = (in_range c.max_top_urls top_urls_max d).0;
          max_top_urls_le = (in_range c.max_top_urls top_urls_max d).1;
        },
      )
    ]
  ]
]

-- The settings with the defaults filled in are accepted as they are if they are within the limits,
-- and refused if they are not.
pub init_main_conf-IsWithinLimits :
    (s : MainSettings)
    → ((init_main_conf s ≡ some (with_defaults s)) × IsWithinLimits (with_defaults s))
      ⊎ ((init_main_conf s ≡ none) × (¬ IsWithinLimits (with_defaults s)))
unfolding init_main_conf
init_main_conf-IsWithinLimits s = check_limits-IsWithinLimits (with_defaults s)
