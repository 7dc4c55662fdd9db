-- ===== src/Slots/Table/Laws.antt =====
-- The effect of one update on a table: exactly one slot changes, and which.
use ngx_http_monitoring_modu.Prelude.{
  ℕ, ◌≤◌, ◌<◌, ◌≡◌, ◌≢◌, refl, subst, sym, ◌∙◌, Bool, true, false, ◌⊎◌, inl, inr, List, arith,
  length, length-take, take, set, get_elem?, get_elem?-lt, get_elem?-take, All, All-get_elem?,
  All-take, some, word_max,
}
use ngx_http_monitoring_modu.Slots.Search.{Found, hit, miss, search}
use ngx_http_monitoring_modu.Slots.Search.Laws.{Outcome, held, free, full, search-Outcome}
use ngx_http_monitoring_modu.Slots.Table.{claimed, alter, place, update_slot}

alter-get :
    {A : Type 0} (entries : List A) (i : ℕ) {e : A} (change : A → A)
    → get_elem? entries i ≡ some e
    → alter entries i change ≡ set entries i (change e)
alter-get entries i change h = rw (h, alter)

module _ {A : Type 0} (count : A → ℕ) (same : A → Bool) (count_on : A → A) (claim : A) where
  -- `counted`: slot `p` held the key and counts on. `claims`: no other slot held it, and the slot
  -- that is overwritten was free, or else all were in use, none held the key and none was used less.
  pub data Effect (capacity : ℕ) (entries : List A) : List A → Type 0 where
    counted :
        (p : ℕ) (e : A)
        → p < capacity
        → get_elem? entries p ≡ some e
        → same e ≡ true
        → Effect capacity entries (set entries p (count_on e))
    claims :
        (p : ℕ) (e : A)
        → p < capacity
        → get_elem? entries p ≡ some e
        → ((j : ℕ) (x : A) → j < capacity → get_elem? entries j ≡ some x → j ≢ p → same x ≡ false)
        → (count e ≡ 0)
          ⊎ ((j : ℕ) (x : A)
              → j < capacity
              → get_elem? entries j ≡ some x
              → (count x ≢ 0) × (count e ≤ count x) × (same x ≡ false))
        → Effect capacity entries (set entries p claim)

  module _ (capacity : ℕ) (entries : List A) (fits : capacity ≤ length entries) where
    in_table :
        (p : ℕ) {e : A}
        → get_elem? (take capacity entries) p ≡ some e
        → (p < capacity) × (get_elem? entries p ≡ some e)
    in_table p g =
        let p< : p < capacity =
          omega (arith, get_elem?-lt (take capacity entries) p g, length-take capacity entries) in
        (p<, sym (get_elem?-take entries capacity p p<) ∙ g)

    claimed-free : (em vi : ℕ) → em ≢ capacity → claimed capacity em vi ≡ em
    claimed-free em vi ne = ground arith

    claimed-full : (em vi : ℕ) → em ≡ capacity → claimed capacity em vi ≡ vi
    claimed-full em vi eq = ground arith

    claimed_at :
        (em vi p : ℕ) {e : A}
        → get_elem? entries p ≡ some e
        → claimed capacity em vi ≡ p
        → Effect capacity entries (set entries p claim)
        → Effect capacity entries (place count same count_on claim capacity entries (miss em vi))
    claimed_at em vi p g c h =
        subst (λ k. Effect capacity entries (alter entries k (λ _. claim))) (sym c)
          (subst (Effect capacity entries) (sym (alter-get entries p (λ _. claim) g)) h)

    Effect-of_Outcome :
        (r : Found)
        → Outcome count same capacity (take capacity entries) r
        → Effect capacity entries (place count same count_on claim capacity entries r)
    Effect-of_Outcome (hit j) (held e g s) =
        let (j<, g') = in_table j g in
        subst (Effect capacity entries) (sym (alter-get entries j count_on g'))
          (counted j e j< g' s)
    Effect-of_Outcome (miss em vi) (free e ne g z none_same) =
        let (em<, g') = in_table em g in
        claimed_at em vi em g' (claimed-free em vi ne) (
          claims em e em< g'
            (λ j x j< gx ne'. none_same j x (get_elem?-take entries capacity j j< ∙ gx) ne')
            (inl z))
    Effect-of_Outcome (miss em vi) (full e eq g used least none_same) =
        let (vi<, g') = in_table vi g in
        claimed_at em vi vi g' (claimed-full em vi eq) (
          claims vi e vi< g'
            (λ j x j< gx _. none_same j x (get_elem?-take entries capacity j j< ∙ gx))
            (inr (λ j x j< gx.
              let gt = get_elem?-take entries capacity j j< ∙ gx in
              (All-get_elem? _ _ j used gt, All-get_elem? _ _ j least gt, none_same j x gt))))

    -- An update with room for at least one slot has one of the two effects.
    pub update_slot-Effect :
        0 < capacity
        → All (λ x. count x ≤ word_max) entries
        → Effect capacity entries (update_slot count same count_on claim capacity entries)
    unfolding update_slot
    update_slot-Effect p w =
        let shown = take capacity entries in
        Effect-of_Outcome (search count same capacity shown) (
          search-Outcome count same capacity shown (search count same capacity shown)
            (omega (arith, length-take capacity entries)) p
            (All-take (λ x. count x ≤ word_max) entries capacity w) refl)
