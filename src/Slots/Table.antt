-- ===== src/Slots/Table.antt =====
-- What both update functions do with the result of the search: count on in the slot of the key, or
-- claim the free slot, or else the least used one.
pub mod Laws
pub mod Unique
use ngx_http_monitoring_modu.Prelude.{
  ℕ, Bool, List, take, set, get_elem?, Option, none, some, ◌==◌, if◌then◌else◌,
}
use ngx_http_monitoring_modu.Slots.Search.{Found, hit, miss, search}

-- The slot that the lines after the loop claim: `(empty != capacity) ? empty : victim`.
abbrev pub claimed : ℕ → ℕ → ℕ → ℕ
claimed capacity empty victim = if empty == capacity then victim else empty

-- A write to slot `i` by `change`.
abbrev pub alter : {A : Type 0} → List A → ℕ → (A → A) → List A
alter entries i change = elim (get_elem? entries i) [
  | none ↦ entries
  | some e ↦ set entries i (change e)
]

-- `count_on` is the body of the match in the loop, `claim` what the lines after the loop leave in a
-- slot that they overwrite.
module _ {A : Type 0} (count : A → ℕ) (same : A → Bool) (count_on : A → A) (claim : A) where
  abbrev pub place : ℕ → List A → Found → List A
  place capacity entries (hit i) = alter entries i count_on
  place capacity entries (miss empty victim) =
      alter entries (claimed capacity empty victim) (λ _. claim)

  unfoldable pub update_slot : ℕ → List A → List A
  update_slot capacity entries =
      place capacity entries (search count same capacity (take capacity entries))
