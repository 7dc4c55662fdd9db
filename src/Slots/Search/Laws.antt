-- ===== src/Slots/Search/Laws.antt =====
-- What the search loop finds: the slot of the key, or else the first free slot, or else a slot that
-- is used least.
use ngx_http_monitoring_modu.Prelude.{
  ℕ, zero, suc, ◌+◌, ◌≤◌, ◌<◌, ◌≡◌, ◌≢◌, refl, Bool, true, false, ◌⊎◌, inl, inr, List, [], ◌∷◌,
  arith, length, get_elem?, get_elem?-lt, All, some, word_max, sym, ◌∙◌,
}
use native.Mathlib.Nat.{zero-add}
use ngx_http_monitoring_modu.Slots.Search.{Found, hit, miss, search_from, search}
use ngx_http_monitoring_modu.Slots.Search.Rounds.{skips, hits, lowers, passes, round}

module _ {A : Type 0} (count : A → ℕ) (same : A → Bool) (capacity : ℕ) where
  abbrev from : List A → ℕ → ℕ → ℕ → ℕ → Found
  from = search_from count same capacity

  -- A hit is at a slot that holds the key.
  search_from-hit :
      (es : List A) (i empty victim least : ℕ) {j : ℕ}
      → from es i empty victim least ≡ hit j
      → (k : ℕ) × (e : A) × (j ≡ i + k) × (get_elem? es k ≡ some e) × (same e ≡ true)
  unfolding search_from
  search_from-hit [] i empty victim least h = cc
  search_from-hit (e ∷ es) i empty victim least h =
      elim (round count same capacity e es i empty victim least) [
        | skips z f q ↦ later (search_from-hit es (i + 1) i victim least (sym q ∙ h))
        | hits s q ↦ (0, e, ground arith, refl, s)
        | lowers u d p q ↦ later (search_from-hit es (i + 1) empty i (count e) (sym q ∙ h))
        | passes u d p q ↦ later (search_from-hit es (i + 1) empty victim least (sym q ∙ h))
      ]
    where
      later :
          {j : ℕ}
          → (k : ℕ) × (x : A) × (j ≡ i + 1 + k) × (get_elem? es k ≡ some x) × (same x ≡ true)
          → (k : ℕ) × (x : A) × (j ≡ i + k) × (get_elem? (e ∷ es) k ≡ some x) × (same x ≡ true)
      later (k, x, a, b, c) = (suc k, x, omega arith, b, c)

  -- After a free slot was found, the loop keeps it.
  search_from-empty_kept :
      (es : List A) (i empty victim least : ℕ) {em vi : ℕ}
      → empty ≢ capacity
      → from es i empty victim least ≡ miss em vi
      → em ≡ empty
  unfolding search_from
  search_from-empty_kept [] i empty victim least f h = cc
  search_from-empty_kept (e ∷ es) i empty victim least f h =
      elim (round count same capacity e es i empty victim least) [
        | skips z g q ↦ absurd (f g)
        | hits s q ↦ cc
        | lowers u d p q ↦ search_from-empty_kept es (i + 1) empty i (count e) f (sym q ∙ h)
        | passes u d p q ↦ search_from-empty_kept es (i + 1) empty victim least f (sym q ∙ h)
      ]

  -- On a miss no slot but the free one was the key's.
  search_from-miss :
      (es : List A) (i empty victim least : ℕ) {em vi : ℕ} (k : ℕ) (x : A)
      → i + length es ≤ capacity
      → from es i empty victim least ≡ miss em vi
      → get_elem? es k ≡ some x
      → (same x ≡ false) ⊎ (em ≡ i + k)
  unfolding search_from
  search_from-miss [] i empty victim least k x l h g = cc
  search_from-miss (e ∷ es) i empty victim least zero x l h g =
      elim (round count same capacity e es i empty victim least) [
        | skips z f q ↦ inr (
            omega
              (arith, search_from-empty_kept es (i + 1) i victim least (omega arith) (sym q ∙ h)))
        | hits s q ↦ cc
        | lowers u d p q ↦ inl (ground arith)
        | passes u d p q ↦ inl (ground arith)
      ]
  search_from-miss (e ∷ es) i empty victim least (suc k) x l h g =
      elim (round count same capacity e es i empty victim least) [
        | skips z f q ↦
            ground
              (arith, search_from-miss es (i + 1) i victim least k x (omega arith) (sym q ∙ h) g)
        | hits s q ↦ cc
        | lowers u d p q ↦
            ground
              (arith, search_from-miss es (i + 1) empty i (count e) k x (omega arith) (sym q ∙ h) g)
        | passes u d p q ↦
            ground (
              arith,
              search_from-miss es (i + 1) empty victim least k x (omega arith) (sym q ∙ h) g,
            )
      ]

  -- The free slot that is reported is free, and none is reported only if all are used.
  search_from-empty :
      (es : List A) (i victim least : ℕ) {em vi : ℕ}
      → i + length es ≤ capacity
      → from es i capacity victim least ≡ miss em vi
      → ((em ≡ capacity) × All (λ x. count x ≢ 0) es)
        ⊎ ((k : ℕ) × (e : A) × (em ≡ i + k) × (get_elem? es k ≡ some e) × (count e ≡ 0))
  unfolding search_from
  search_from-empty [] i victim least l h = inl (ground arith, tt)
  search_from-empty (e ∷ es) i victim least {em} l h =
      elim (round count same capacity e es i capacity victim least) [
        | skips z f q ↦ inr (
          0,
          e,
          omega (arith, search_from-empty_kept es (i + 1) i victim least (omega arith) (sym q ∙ h)),
          refl,
          z,
        )
        | hits s q ↦ cc
        | lowers u d p q ↦
            later (u refl) (search_from-empty es (i + 1) i (count e) (omega arith) (sym q ∙ h))
        | passes u d p q ↦
            later (u refl) (search_from-empty es (i + 1) victim least (omega arith) (sym q ∙ h))
      ]
    where
      later :
          count e ≢ 0
          → ((em ≡ capacity) × All (λ x. count x ≢ 0) es)
            ⊎ ((k : ℕ) × (x : A) × (em ≡ i + 1 + k) × (get_elem? es k ≡ some x) × (count x ≡ 0))
          → ((em ≡ capacity) × All (λ x. count x ≢ 0) (e ∷ es))
            ⊎ ((k : ℕ) × (x : A) × (em ≡ i + k) × (get_elem? (e ∷ es) k ≡ some x) × (count x ≡ 0))
      later u (inl (a, b)) = inl (a, (u, b))
      later u (inr (k, x, a, b, c)) = inr (suc k, x, omega arith, b, c)

  -- Where all slots are used, the victim is the first of those that are used least.
  search_from-victim :
      (es : List A) (i victim least : ℕ) {vi : ℕ}
      → i + length es ≤ capacity
      → from es i capacity victim least ≡ miss capacity vi
      → ((vi ≡ victim) × All (λ x. least ≤ count x) es)
        ⊎ ((k : ℕ) × (e : A) × (vi ≡ i + k)
            × (get_elem? es k ≡ some e)
            × (count e < least)
            × All (λ x. count e ≤ count x) es)
  unfolding search_from
  search_from-victim [] i victim least l h = inl (ground arith, tt)
  search_from-victim (e ∷ es) i victim least {vi} l h =
      elim (round count same capacity e es i capacity victim least) [
        | skips z f q ↦ absurd (
            omega
              (arith, search_from-empty_kept es (i + 1) i victim least (omega arith) (sym q ∙ h)))
        | hits s q ↦ cc
        | lowers u d p q ↦
            lower p (search_from-victim es (i + 1) i (count e) (omega arith) (sym q ∙ h))
        | passes u d p q ↦
            pass p (search_from-victim es (i + 1) victim least (omega arith) (sym q ∙ h))
      ]
    where
      Chosen : List A → ℕ → ℕ → ℕ → Type 0
      Chosen xs j v m =
          ((vi ≡ v) × All (λ x. m ≤ count x) xs)
          ⊎ ((k : ℕ) × (x : A) × (vi ≡ j + k)
              × (get_elem? xs k ≡ some x)
              × (count x < m)
              × All (λ y. count x ≤ count y) xs)

      lower : count e < least → Chosen es (i + 1) i (count e) → Chosen (e ∷ es) i victim least
      lower p (inl (a, b)) = inr (0, e, omega arith, refl, p, (omega arith, b))
      lower p (inr (k, x, a, b, c, d)) =
          inr (suc k, x, omega arith, b, omega arith, (omega arith, d))

      pass : least ≤ count e → Chosen es (i + 1) victim least → Chosen (e ∷ es) i victim least
      pass p (inl (a, b)) = inl (a, (p, b))
      pass p (inr (k, x, a, b, c, d)) = inr (suc k, x, omega arith, b, c, (omega arith, d))

  -- What the whole loop has found.
  pub data Outcome (es : List A) : Found → Type 0 where
    held : {j : ℕ} (e : A) → get_elem? es j ≡ some e → same e ≡ true → Outcome es (hit j)
    free :
        {em vi : ℕ} (e : A)
        → em ≢ capacity
        → get_elem? es em ≡ some e
        → count e ≡ 0
        → ((k : ℕ) (x : A) → get_elem? es k ≡ some x → k ≢ em → same x ≡ false)
        → Outcome es (miss em vi)
    full :
        {em vi : ℕ} (e : A)
        → em ≡ capacity
        → get_elem? es vi ≡ some e
        → All (λ x. count x ≢ 0) es
        → All (λ x. count e ≤ count x) es
        → ((k : ℕ) (x : A) → get_elem? es k ≡ some x → same x ≡ false)
        → Outcome es (miss em vi)

  at_least : (es : List A) (m n : ℕ) → m ≤ n → All (λ x. n ≤ count x) es → All (λ x. m ≤ count x) es
  at_least [] m n h a = tt
  at_least (e ∷ es) m n h a = (omega arith, at_least es m n h a.1)

  same_elsewhere : {b : Bool} {k em : ℕ} → k ≢ em → (b ≡ false) ⊎ (em ≡ 0 + k) → b ≡ false
  same_elsewhere ne (inl d) = d
  same_elsewhere ne (inr e) = absurd (ne (omega arith))

  Outcome-miss :
      (es : List A) {em vi : ℕ}
      → length es ≡ capacity
      → 0 < capacity
      → All (λ x. count x ≤ word_max) es
      → search count same capacity es ≡ miss em vi
      → Outcome es (miss em vi)
  unfolding search
  Outcome-miss [] l p w h = absurd (omega arith)
  Outcome-miss (x ∷ xs) {em} {vi} l p w h =
      elim (search_from-empty (x ∷ xs) 0 0 word_max (omega arith) h) [
        | inr (k, e, a, g, z) ↦
            free e (omega (arith, get_elem?-lt (x ∷ xs) k g)) (rw (a, zero-add) g) z
              (λ j y gy ne. same_elsewhere ne (missed j y gy))
        | inl (a, used) ↦
            let no_same = λ (j : ℕ) (y : A) (gy : get_elem? (x ∷ xs) j ≡ some y).
              same_elsewhere {k = j} {em = em} (omega (arith, get_elem?-lt (x ∷ xs) j gy))
                (missed j y gy) in
            elim (search_from-victim (x ∷ xs) 0 0 word_max (omega arith) (rw a at h)) [
              | inl (v, least) ↦
                  full x a (rw v refl) used
                    (omega arith, at_least xs (count x) word_max w.0 least.1) no_same
              | inr (k, e, v, g, _, least) ↦ full e a (rw (v, zero-add) g) used least no_same
            ]
      ]
    where
      missed : (j : ℕ) (y : A) → get_elem? (x ∷ xs) j ≡ some y → (same y ≡ false) ⊎ (em ≡ 0 + j)
      missed j y gy = search_from-miss (x ∷ xs) 0 capacity 0 word_max j y (omega arith) h gy

  -- Over as many slots as the capacity, at least one, with counts that are words: the loop returns
  -- at a slot that holds the key, or else reports a free slot, or else a slot that is used least;
  -- on a miss no slot holds the key, except that the free one is not asked.
  pub search-Outcome :
      (es : List A) (r : Found)
      → length es ≡ capacity
      → 0 < capacity
      → All (λ x. count x ≤ word_max) es
      → search count same capacity es ≡ r
      → Outcome es r
  unfolding search
  search-Outcome es (hit j) l p w h =
      let (k, e, a, g, s) = search_from-hit es 0 capacity 0 word_max h in
      held e (rw (a, zero-add) g) s
  search-Outcome es (miss em vi) l p w h = Outcome-miss es l p w h
