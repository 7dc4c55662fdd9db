-- ===== src/RateLimit/Laws.antt =====
-- The rate limit admits the first requests of each second, up to the limit, and no others.
use native.Mathlib.Decide.{dec_lt}
use ngx_http_monitoring_modu.Prelude.{
  ℕ, zero, suc, ◌+◌, ◌-◌, ◌≤◌, ◌<◌, ◌≡◌, ◌≢◌, refl, sym, ◌∙◌, ap, ap₂, true, false, List, [], ◌∷◌,
  ◌++◌, arith, min, replicate, word_max, ltb, Option, some, ne→==, if◌then◌else◌,
}
use ngx_http_monitoring_modu.State.{ShCtx}
use ngx_http_monitoring_modu.Http.{MainConf}
use ngx_http_monitoring_modu.Access.{Verdict, ok, declined}
use ngx_http_monitoring_modu.RateLimit.{open_window, count_against, check_rate_limit}

-- `k` requests pass, and the others are refused.
abbrev pub first : ℕ → ℕ → List Verdict
first k n = replicate (min n k) ok ++ replicate (n - k) declined

first-ok : (k n : ℕ) → first (suc k) (suc n) ≡ ok ∷ first k n
first-ok k n =
    let e : min (suc n) (suc k) ≡ suc (min n k) = omega arith in
    let d : suc n - suc k ≡ n - k = omega arith in rw (e, d)

first-declined : (n : ℕ) → first 0 (suc n) ≡ declined ∷ first 0 n
first-declined n =
    let e : min (suc n) 0 ≡ 0 = omega arith in
    let f : min n 0 ≡ 0 = omega arith in
    let d : suc n - 0 ≡ suc (n - 0) = omega arith in rw (e, f, d)

first-zero : (k : ℕ) → first k 0 ≡ []
first-zero k = let e : min 0 k ≡ 0 = omega arith in let d : 0 - k ≡ 0 = omega arith in rw (e, d)

minus_zero : (k : ℕ) → k - 0 ≡ k
minus_zero k = omega arith

-- The verdict on a request with `c` before it stands at the head of what is left of the limit.
first-step :
    (limit c n : ℕ)
    → (if ltb limit (c + 1) then declined else ok) ∷ first (limit - (c + 1)) n
      ≡ first (limit - c) (suc n)
first-step limit c n = elim (dec_lt c limit) [
  | yes p ↦
      let e : limit - c ≡ suc (limit - (c + 1)) = omega arith in
      let b : ltb limit (c + 1) ≡ false = ground arith in
      rw (b, e) (sym (first-ok (limit - (c + 1)) n))
  | no p ↦
      let e : limit - c ≡ 0 = omega arith in
      let f : limit - (c + 1) ≡ 0 = omega arith in
      let b : ltb limit (c + 1) ≡ true = ground arith in rw (b, e, f) (sym (first-declined n))
]

module _ {Double : Type 0} (now limit : ℕ) (conf : MainConf) where
  -- The verdicts of `n` requests in a row in the second `now`.
  pub verdicts : ℕ → Option (ShCtx Double) → List Verdict
  verdicts zero sh = []
  verdicts (suc n) sh =
      let (v, sh') = check_rate_limit now limit (some conf) sh in v ∷ verdicts n sh'

  -- One check with the limit on: the window is opened and the request is counted.
  abbrev check : ShCtx Double → Verdict × ShCtx Double
  check sh = count_against limit (open_window now sh)

  check_rate_limit-check :
      (sh : ShCtx Double)
      → limit ≢ 0
      → conf.shpool ≡ true
      → check_rate_limit now limit (some conf) (some sh) ≡ ((check sh).0, some (check sh).1)
  unfolding check_rate_limit
  check_rate_limit-check sh l s = rw (ne→== limit 0 l, s)

  -- A check within the window counts one more, and passes while the count is within the limit.
  check_within :
      (sh : ShCtx Double)
      → sh.rate_limit_window ≡ now
      → sh.rate_limit_count < word_max
      → ((check sh).1.rate_limit_window ≡ now)
        × ((check sh).1.rate_limit_count ≡ sh.rate_limit_count + 1)
        × ((check sh).0 ≡ (if ltb limit (sh.rate_limit_count + 1) then declined else ok))
  unfolding open_window count_against
  check_within sh w c = ground arith

  open_window-now : (sh : ShCtx Double) → (open_window now sh).rate_limit_window ≡ now
  unfolding open_window
  open_window-now sh = ground arith

  open_window-fresh :
      (sh : ShCtx Double) → sh.rate_limit_window ≢ now → (open_window now sh).rate_limit_count ≡ 0
  unfolding open_window
  open_window-fresh sh w = ground arith

  open_window_idem : (sh : ShCtx Double) → open_window now (open_window now sh) ≡ open_window now sh
  unfolding open_window
  open_window_idem sh = ground arith

  module _ (on : limit ≢ 0) (pool : conf.shpool ≡ true) where
    verdicts-suc :
        (n : ℕ) (sh : ShCtx Double)
        → verdicts (suc n) (some sh) ≡ (check sh).0 ∷ verdicts n (some (check sh).1)
    unfolding verdicts
    verdicts-suc n sh = rw (check_rate_limit-check sh on pool)

    verdicts_within :
        (n c : ℕ) (sh : ShCtx Double)
        → sh.rate_limit_window ≡ now
        → sh.rate_limit_count ≡ c
        → c + n ≤ word_max
        → verdicts n (some sh) ≡ first (limit - c) n
    unfolding verdicts
    verdicts_within zero c sh w e b = sym (first-zero (limit - c))
    verdicts_within (suc n) c sh w e b =
        let (w', c', v) = check_within sh w (omega arith) in
        let rest = verdicts_within n (c + 1) (check sh).1 w' (omega arith) (omega arith) in
        verdicts-suc n sh
        ∙ ap₂ ◌∷◌ (v ∙ ap (λ k. if ltb limit (k + 1) then declined else ok) e) rest
        ∙ first-step limit c n

    verdicts-open_window :
        (n : ℕ) (sh : ShCtx Double) → verdicts n (some sh) ≡ verdicts n (some (open_window now sh))
    unfolding verdicts
    verdicts-open_window zero sh = refl
    verdicts-open_window (suc n) sh =
        verdicts-suc n sh
        ∙ ap (λ s. (count_against limit s).0 ∷ verdicts n (some (count_against limit s).1))
            (sym (open_window_idem sh))
        ∙ sym (verdicts-suc n (open_window now sh))

    -- With the limit on and a pool, of up to 2^64 - 1 requests in a row in a second that the window
    -- does not hold yet, the first `limit` ones pass, and all the others are refused.
    pub verdicts-first :
        (n : ℕ) (sh : ShCtx Double)
        → sh.rate_limit_window ≢ now
        → n ≤ word_max
        → verdicts n (some sh) ≡ first limit n
    verdicts-first n sh w b =
        verdicts-open_window n sh
        ∙ verdicts_within n 0 (open_window now sh) (open_window-now sh) (open_window-fresh sh w)
            (omega arith)
        ∙ ap (λ k. first k n) (minus_zero limit)
