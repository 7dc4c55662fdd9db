-- ===== src/Collect/Tables/Fill.antt =====
-- The loops of the collectors of tables (src/ngx_http_monitoring_collectors.c).
use ngx_http_monitoring_modu.Prelude.{
  ℕ, zero, suc, ◌+◌, ◌-◌, ◌≤◌, ◌<◌, ◌≡◌, refl, sym, ap, ◌∙◌, arith, List, [], ◌∷◌, Option, none,
  some, ap₂, get_or, set, take, length, ltb, min, true, false, Bool-cases, inl, inr, Option-cases,
}
use ngx_http_monitoring_modu.Collect.Tables.{fill_step, fill_each, fill_until}

abbrev keep : {A : Type 0} → Option A → List A → List A
keep none us = us
keep (some u) us = u ∷ us

-- What the lines give that give something.
abbrev pub accepted : {A : Type 0} → (List ℕ → Option A) → List (List ℕ) → List A
accepted parse [] = []
accepted parse (line ∷ lines) = keep (parse line) (accepted parse lines)

-- The slots from `c` on, each changed by its own update, as far as there are updates.
abbrev pub apply_at : {E : Type 0} → ℕ → List (E → E) → List E → List E
apply_at c us [] = []
apply_at zero [] (e ∷ es) = e ∷ es
apply_at zero (u ∷ us) (e ∷ es) = u e ∷ apply_at zero us es
apply_at (suc c) us (e ∷ es) = e ∷ apply_at c us es

apply_at-nil : {E : Type 0} (c : ℕ) (es : List E) → apply_at c [] es ≡ es
apply_at-nil c [] = refl
apply_at-nil zero (e ∷ es) = refl
apply_at-nil (suc c) (e ∷ es) = ap (λ xs. e ∷ xs) (apply_at-nil c es)

apply_at-set :
    {E : Type 0} (c : ℕ) (u : E → E) (us : List (E → E)) (d : E) (es : List E)
    → apply_at (suc c) us (set es c (u (get_or es c d))) ≡ apply_at c (u ∷ us) es
apply_at-set c u us d [] = refl
apply_at-set zero u us d (e ∷ es) = refl
apply_at-set (suc c) u us d (e ∷ es) = ap (λ xs. e ∷ xs) (apply_at-set c u us d es)

-- The table that the updates make of one with `c` slots in use.
abbrev pub filled : {E : Type 0} → ℕ → List (E → E) → ℕ → List E → ℕ × List E
filled limit us c es = (min limit (c + length us), apply_at c (take (limit - c) us) es)

take-nil : {A : Type 0} (n : ℕ) → ◌≡◌ {A = List A} (take n []) []
take-nil zero = refl
take-nil (suc n) = refl

filled-nil : {E : Type 0} (limit c : ℕ) (es : List E) → c ≤ limit → (c, es) ≡ filled limit [] c es
filled-nil {E} limit c es h =
    let m : c ≡ min limit (c + 0) = omega arith in
    rw (take-nil {A = E → E} (limit - c)) (ap₂ (λ n xs. (n, xs)) m (sym (apply_at-nil c es)))

filled-full :
    {E : Type 0} (limit : ℕ) (us : List (E → E)) (c : ℕ) (es : List E)
    → c ≤ limit
    → ltb c limit ≡ false
    → filled limit us c es ≡ (c, es)
filled-full limit us c es h b =
    let e : limit - c ≡ 0 = ground arith in
    let m : min limit (c + length us) ≡ c = ground arith in
    rw (e, m) (ap (λ xs. (c, xs)) (apply_at-nil c es))

filled-cons :
    {E : Type 0} (limit : ℕ) (u : E → E) (us : List (E → E)) (d : E) (c : ℕ) (es : List E)
    → c < limit
    → filled limit us (suc c) (set es c (u (get_or es c d))) ≡ filled limit (u ∷ us) c es
filled-cons limit u us d c es h =
    let e : limit - c ≡ suc (limit - suc c) = omega arith in
    let m : min limit (suc c + length us) ≡ min limit (c + suc (length us)) = omega arith in
    rw (e) (ap₂ (λ n xs. (n, xs)) m (apply_at-set c u (take (limit - suc c) us) d es))

module _ {E : Type 0} (limit : ℕ) (d : E) (parse : List ℕ → Option (E → E)) where
  fill_step-full :
      (s : ℕ × List E) (line : List ℕ) → ltb s.0 limit ≡ false → fill_step limit d parse s line ≡ s
  unfolding fill_step
  fill_step-full s line b = rw (b)

  fill_step-none :
      (s : ℕ × List E) (line : List ℕ) → parse line ≡ none → fill_step limit d parse s line ≡ s
  unfolding fill_step
  fill_step-none s line e = elim (Bool-cases (ltb s.0 limit)) [ inl b ↦ rw (b, e) | inr b ↦ rw (b) ]

  fill_step-some :
      (c : ℕ) (es : List E) (line : List ℕ) (u : E → E)
      → ltb c limit ≡ true
      → parse line ≡ some u
      → fill_step limit d parse (c, es) line ≡ (suc c, set es c (u (get_or es c d)))
  unfolding fill_step
  fill_step-some c es line u b e =
      rw (b, e) (ap (λ n. (n, set es c (u (get_or es c d)))) (omega arith))

  fill_each-filled :
      (c : ℕ) (es : List E) (lines : List (List ℕ))
      → c ≤ limit
      → fill_each limit d parse (c, es) lines ≡ filled limit (accepted parse lines) c es
  fill_each-filled c es [] h = filled-nil limit c es h
  fill_each-filled c es (line ∷ lines) h = elim (Bool-cases (ltb c limit)) [
    | inl b ↦ elim (Option-cases (parse line)) [
      | inl e ↦ rw (fill_step-none (c, es) line e, e) (fill_each-filled c es lines h)
      | inr (u, e) ↦
          rw (fill_step-some c es line u b e, e)
            (fill_each-filled (suc c) (set es c (u (get_or es c d))) lines (ground arith)
              ∙ filled-cons limit u (accepted parse lines) d c es (ground arith))
    ]
    | inr b ↦ rw (fill_step-full (c, es) line b) (
        fill_each-filled c es lines h
        ∙ filled-full limit (accepted parse lines) c es h b
        ∙ sym (filled-full limit (accepted parse (line ∷ lines)) c es h b))
  ]

  fill_each-full :
      (s : ℕ × List E) (lines : List (List ℕ))
      → ltb s.0 limit ≡ false
      → fill_each limit d parse s lines ≡ s
  fill_each-full s [] b = refl
  fill_each-full s (line ∷ lines) b = rw (fill_step-full s line b) (fill_each-full s lines b)

  fill_until-each :
      (s : ℕ × List E) (lines : List (List ℕ))
      → fill_until limit d parse s lines ≡ fill_each limit d parse s lines
  fill_until-each s [] = refl
  fill_until-each s (line ∷ lines) = elim (Bool-cases (ltb s.0 limit)) [
    | inl b ↦ rw (b) (fill_until-each (fill_step limit d parse s line) lines)
    | inr b ↦ rw (b) (sym (fill_each-full s (line ∷ lines) b))
  ]

  -- A table that is filled from its start has the accepted lines' updates in its first slots, in the
  -- order of the lines and as many as there is room for.
  pub fill_each-accepted :
      (es : List E) (lines : List (List ℕ))
      → fill_each limit d parse (0, es) lines ≡ (
        min limit (length (accepted parse lines)),
        apply_at 0 (take limit (accepted parse lines)) es,
      )
  fill_each-accepted es lines =
      let us = accepted parse lines in
      fill_each-filled 0 es lines (omega arith)
      ∙ ap₂ (λ n k. (min limit n, apply_at 0 (take k us) es)) (omega arith) (omega arith)

  pub fill_until-accepted :
      (es : List E) (lines : List (List ℕ))
      → fill_until limit d parse (0, es) lines ≡ (
        min limit (length (accepted parse lines)),
        apply_at 0 (take limit (accepted parse lines)) es,
      )
  fill_until-accepted es lines = fill_until-each (0, es) lines ∙ fill_each-accepted es lines
