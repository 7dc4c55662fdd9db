-- ===== src/Slots/Table/Unique.antt =====
-- No key ever has two slots of a table.
use ngx_http_monitoring_modu.Prelude.{
  ℕ, ◌<◌, ◌≡◌, subst, sym, ◌∙◌, Bool, true, false, inl, inr, List, set, get_elem?, get_elem?-lt,
  get_elem?-set_cases, some,
}
use ngx_http_monitoring_modu.Slots.Table.Laws.{Effect, counted, claims}

-- Every key has at most one slot among the first `capacity`.
abbrev pub AreUnique : {A Key : Type 0} → (Key → A → Bool) → ℕ → List A → Type 0
AreUnique {A} {Key} same capacity entries =
    (k : Key) (i j : ℕ) (x y : A)
    → i < capacity
    → j < capacity
    → get_elem? entries i ≡ some x
    → get_elem? entries j ≡ some y
    → same k x ≡ true
    → same k y ≡ true
    → i ≡ j

module _ {A Key : Type 0} (same : Key → A → Bool)
    (alike : (k k' : Key) (e x : A) → same k e ≡ true → same k' e ≡ true → same k x ≡ same k' x)
    (count : A → ℕ) (count_on : A → A) (claim : A) (k : Key)
    (kept : (k' : Key) (e : A) → same k' (count_on e) ≡ same k' e)
    (claimed_key : same k claim ≡ true) (capacity : ℕ) where
  -- A slot that answers to `k'` after its count answered to it before.
  answered :
      (entries : List A) (p : ℕ) (e : A) (k' : Key) (i : ℕ) (x : A)
      → get_elem? entries p ≡ some e
      → get_elem? (set entries p (count_on e)) i ≡ some x
      → same k' x ≡ true
      → (y : A) × (get_elem? entries i ≡ some y) × (same k' y ≡ true)
  answered entries p e k' i x g gx sx =
      elim (get_elem?-set_cases entries p i (count_on e) x (get_elem?-lt entries p g) gx) [
        | inl (ip, xv) ↦ (e, subst (λ q. get_elem? entries q ≡ some e) (sym ip) g, cc (kept k' e))
        | inr (_, gx') ↦ (x, gx', sx)
      ]

  -- Nothing but the claimed slot answers to a key that it answers to.
  no_rival :
      (k' : Key) (x y : A) → x ≡ claim → same k' x ≡ true → same k' y ≡ true → same k y ≡ false → ⊥
  no_rival k' x y xv sx sy no_y =
      cc (alike k k' claim y claimed_key (subst (λ z. same k' z ≡ true) xv sx))

  -- An update with `k` keeps the keys unique.
  pub Effect-AreUnique :
      {entries entries' : List A}
      → Effect count (same k) count_on claim capacity entries entries'
      → AreUnique same capacity entries
      → AreUnique same capacity entries'
  Effect-AreUnique {entries} (counted p e p< g s) u k' i j x y i< j< gx gy sx sy =
      let (x', ox, sx') = answered entries p e k' i x g gx sx in
      let (y', oy, sy') = answered entries p e k' j y g gy sy in u k' i j x' y' i< j< ox oy sx' sy'
  Effect-AreUnique {entries} (claims p e p< g none_same _) u k' i j x y i< j< gx gy sx sy =
      elim (get_elem?-set_cases entries p i claim x (get_elem?-lt entries p g) gx) [
        | inl (ip, xv) ↦
            elim (get_elem?-set_cases entries p j claim y (get_elem?-lt entries p g) gy) [
              | inl (jp, yv) ↦ ip ∙ sym jp
              | inr (jn, gy') ↦ absurd (no_rival k' x y xv sx sy (none_same j y j< gy' jn))
            ]
        | inr (in', gx') ↦
            elim (get_elem?-set_cases entries p j claim y (get_elem?-lt entries p g) gy) [
              | inl (jp, yv) ↦ absurd (no_rival k' y x yv sy sx (none_same i x i< gx' in'))
              | inr (jn, gy') ↦ u k' i j x y i< j< gx' gy' sx sy
            ]
      ]
