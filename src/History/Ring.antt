-- ===== src/History/Ring.antt =====
-- Positions in a ring, and lists of consecutive values, for the ring of history samples
-- (src/ngx_http_monitoring_collectors.c, src/ngx_http_monitoring_json.c).
use native.Mathlib.Decide.{dec_lt}
use native.Mathlib.Nat.{mod-lt, mod-add-mod, mod-eq_of_lt, mod-eq-sub-mod}
use ngx_http_monitoring_modu.Prelude.{
  ℕ, zero, suc, ◌+◌, ◌-◌, ◌%◌, ◌≤◌, ◌<◌, ◌≡◌, ◌≢◌, refl, sym, ◌∙◌, ap, ap₂, List, [], ◌∷◌, ◌++◌,
  arith,
}

-- Adding the capacity to a position does not move it.
pub mod-add-capacity : (w c : ℕ) → (w + c) % c ≡ w % c
mod-add-capacity w c =
    let e : w + c - c ≡ w = omega arith in mod-eq-sub-mod (omega arith) ∙ ap (λ k. k % c) e

-- Less than a full turn away is another position.
pub mod-add-ne : (w d c : ℕ) → 0 < d → d < c → (w + d) % c ≢ w % c
mod-add-ne w d c p q e =
    let r : w % c < c = mod-lt w (omega arith) in
    let m : (w % c + d) % c ≡ w % c = mod-add-mod w c d ∙ e in
    elim (dec_lt (w % c + d) c) [
      | yes h ↦ let m' : w % c + d ≡ w % c = sym (mod-eq_of_lt h) ∙ m in omega arith
      | no h ↦
          let l : w % c + d - c < c = omega arith in
          let s : (w % c + d) % c ≡ (w % c + d - c) % c = mod-eq-sub-mod (omega arith) in
          let m' : w % c + d - c ≡ w % c = sym (mod-eq_of_lt l) ∙ sym s ∙ m in omega arith
    ]

module _ {ℓ} {A : Type ℓ} where
  -- The values at `n` positions from `i` on.
  abbrev pub tabulate : ℕ → ℕ → (ℕ → A) → List A
  tabulate zero i f = []
  tabulate (suc n) i f = f i ∷ tabulate n (i + 1) f

  pub tabulate_ext :
      (n i : ℕ) (f g : ℕ → A)
      → ((j : ℕ) → i ≤ j → j < i + n → f j ≡ g j)
      → tabulate n i f ≡ tabulate n i g
  tabulate_ext zero i f g h = refl
  tabulate_ext (suc n) i f g h =
      ap₂ ◌∷◌ (h i (omega arith) (omega arith))
        (tabulate_ext n (i + 1) f g (λ j a b. h j (omega arith) (omega arith)))

  pub tabulate-suc : (n i : ℕ) (f : ℕ → A) → tabulate (suc n) i f ≡ tabulate n i f ++ f (i + n) ∷ []
  tabulate-suc zero i f = let e : i + 0 ≡ i = omega arith in ap (λ k. f k ∷ []) (sym e)
  tabulate-suc (suc n) i f =
      let e : i + 1 + n ≡ i + suc n = omega arith in
      ap (λ xs. f i ∷ xs) (tabulate-suc n (i + 1) f ∙ ap (λ k. tabulate n (i + 1) f ++ f k ∷ []) e)

  pub tabulate_shift : (n i : ℕ) (f : ℕ → A) → tabulate n (i + 1) f ≡ tabulate n i (λ j. f (j + 1))
  tabulate_shift zero i f = refl
  tabulate_shift (suc n) i f = ap (λ xs. f (i + 1) ∷ xs) (tabulate_shift n (i + 1) f)
