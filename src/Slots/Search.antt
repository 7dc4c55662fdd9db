-- ===== src/Slots/Search.antt =====
-- The `for` of both update functions: it looks for the slot of a key, and remembers the first free
-- slot and the least used one on the way.
pub mod Rounds
pub mod Laws
use ngx_http_monitoring_modu.Prelude.{
  ℕ, ◌+◌, Bool, ◌&&◌, List, [], ◌∷◌, word_max, ltb, ◌==◌, if◌then◌else◌,
}

-- `hit i` is the return inside the loop at slot `i`; `miss empty victim` is the loop run to its end
-- with these values of the two variables.
pub data Found : Type 0 where
  hit : ℕ → Found
  miss : ℕ → ℕ → Found

-- `count` reads `hits` (or `requests`) of a slot, `same` is the comparison with the key. The list is
-- what is left of the first `capacity` slots, and `i` the index of its head.
module _ {A : Type 0} (count : A → ℕ) (same : A → Bool) (capacity : ℕ) where
  pub search_from : List A → ℕ → ℕ → ℕ → ℕ → Found
  search_from [] i empty victim min_hits = miss empty victim
  search_from (e ∷ entries) i empty victim min_hits =
      let skipped = search_from entries (i + 1) i victim min_hits in
      let lower = search_from entries (i + 1) empty i (count e) in
      let passed = search_from entries (i + 1) empty victim min_hits in
      if count e == 0 && empty == capacity
      then skipped
      else if same e
      then hit i
      else if ltb (count e) min_hits
      then lower
      else passed

  -- The loop with its initial values.
  unfoldable pub search : List A → Found
  unfolding search_from
  search entries = search_from entries 0 capacity 0 word_max
