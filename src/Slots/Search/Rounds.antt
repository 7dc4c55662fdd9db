-- ===== src/Slots/Search/Rounds.antt =====
-- The ways through one round of the search loop.
use ngx_http_monitoring_modu.Prelude.{
  ℕ, ◌+◌, ◌≤◌, ◌<◌, ◌≡◌, ◌≢◌, Bool, true, false, inl, inr, List, ◌∷◌, arith, Bool-cases,
}
use native.Mathlib.Decide.{dec_lt, ℕ_discrete}
use ngx_http_monitoring_modu.Slots.Search.{Found, hit, search_from}

module _ {A : Type 0} (count : A → ℕ) (same : A → Bool) (capacity : ℕ) where
  abbrev from : List A → ℕ → ℕ → ℕ → ℕ → Found
  from = search_from count same capacity

  -- The four ways through the body of the loop.
  pub data Round (e : A) (es : List A) (i empty victim least : ℕ) : Type 0 where
    skips :
        count e ≡ 0
        → empty ≡ capacity
        → from (e ∷ es) i empty victim least ≡ from es (i + 1) i victim least
        → Round e es i empty victim least
    hits :
        same e ≡ true → from (e ∷ es) i empty victim least ≡ hit i → Round e es i empty victim least
    lowers :
        (empty ≡ capacity → count e ≢ 0)
        → same e ≡ false
        → count e < least
        → from (e ∷ es) i empty victim least ≡ from es (i + 1) empty i (count e)
        → Round e es i empty victim least
    passes :
        (empty ≡ capacity → count e ≢ 0)
        → same e ≡ false
        → least ≤ count e
        → from (e ∷ es) i empty victim least ≡ from es (i + 1) empty victim least
        → Round e es i empty victim least

  Round-at :
      (e : A) (es : List A) (i empty victim least : ℕ)
      → (empty ≡ capacity → count e ≢ 0)
      → Round e es i empty victim least
  unfolding search_from
  Round-at e es i empty victim least used = elim (Bool-cases (same e)) [
    | inl s ↦ hits s (ground arith)
    | inr d ↦ elim (dec_lt (count e) least) [
      | yes p ↦ lowers used d p (ground arith)
      | no p ↦ passes used d (omega arith) (ground arith)
    ]
  ]

  pub round : (e : A) (es : List A) (i empty victim least : ℕ) → Round e es i empty victim least
  unfolding search_from
  round e es i empty victim least = elim (ℕ_discrete (count e) 0) [
    | yes z ↦ elim (ℕ_discrete empty capacity) [
      | yes f ↦ skips z f (ground arith)
      | no f ↦ Round-at e es i empty victim least (λ g. absurd (f g))
    ]
    | no z ↦ Round-at e es i empty victim least (λ _. z)
  ]
