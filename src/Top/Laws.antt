-- ===== src/Top/Laws.antt =====
-- One update of a top table: which slot it changes, and that the keys stay distinct.
use ngx_http_monitoring_modu.Prelude.{
  ℕ, ◌≤◌, ◌<◌, ◌≡◌, ◌≢◌, refl, sym, ◌∙◌, ap, subst, length-ne-zero, Bool, true, false, List, [],
  arith, length, All, word_max, ◌⊎◌, inl, inr, ne→==, eq→==,
}
use ngx_http_monitoring_modu.Slots.Key.{same_key}
use ngx_http_monitoring_modu.Slots.Key.Laws.{
  IsText, same_key-kept, same_key_unique, same_key-store_key,
}
use ngx_http_monitoring_modu.Slots.Table.Laws.{Effect, update_slot-Effect}
use ngx_http_monitoring_modu.Slots.Table.Unique.{AreUnique, Effect-AreUnique}
use ngx_http_monitoring_modu.Slots.Table.{update_slot}
use ngx_http_monitoring_modu.Top.{TopEntry, Observation, count_on, holds_key, claim, update_top}

-- A key that nginx hands on: not empty, with no NUL in it.
pub record Text : Type 0 where
  pub bytes : List ℕ
  pub is_text : IsText bytes
  pub is_some : bytes ≢ []

-- Every counter of the table is a word.
abbrev pub HasWords : List TopEntry → Type 0
HasWords = All (λ e. e.hits ≤ word_max)

module _ (crc32 : List ℕ → ℕ) where
  abbrev pub answers : Text → TopEntry → Bool
  answers k = holds_key crc32 k.bytes

  -- What an update does to the table.
  abbrev pub TopEffect : ℕ → Observation → List TopEntry → List TopEntry → Type 0
  TopEffect capacity o =
      Effect (λ e. e.hits) (holds_key crc32 o.key) (count_on o) (claim crc32 o) capacity

  -- The keys of the slots in use are distinct.
  abbrev pub HasDistinctKeys : ℕ → List TopEntry → Type 0
  HasDistinctKeys = AreUnique answers

  update_top-runs :
      (capacity : ℕ) (o : Observation) (entries : List TopEntry)
      → o.key ≢ []
      → 0 < capacity
      → update_top crc32 true capacity o entries
        ≡ update_slot
            (λ e. e.hits)
            (holds_key crc32 o.key)
            (count_on o)
            (claim crc32 o)
            capacity
            entries
  unfolding update_top
  update_top-runs capacity o entries ne pos =
      rw (ne→== (length o.key) 0 (length-ne-zero ne), ne→== capacity 0 (omega arith))

  -- With a pool, a key that is not empty, at least one slot and counts that are words, an update
  -- counts on in a slot that holds the key; or else it overwrites a slot while no other one
  -- holds the key, and that slot was free, or else all were in use, none held the key and none had
  -- fewer hits. No other slot changes.
  pub update_top-TopEffect :
      (capacity : ℕ) (o : Observation) (entries : List TopEntry)
      → o.key ≢ []
      → 0 < capacity
      → capacity ≤ length entries
      → HasWords entries
      → TopEffect capacity o entries (update_top crc32 true capacity o entries)
  update_top-TopEffect capacity o entries ne pos fits w =
      subst (TopEffect capacity o entries) (sym (update_top-runs capacity o entries ne pos)) (
        update_slot-Effect (λ e. e.hits) (holds_key crc32 o.key) (count_on o) (claim crc32 o)
          capacity entries fits pos w)

  -- Two texts to which one slot answers are answered alike by every slot.
  pub answers-alike :
      (k k' : Text) (e x : TopEntry)
      → answers k e ≡ true
      → answers k' e ≡ true
      → answers k x ≡ answers k' x
  unfolding holds_key
  answers-alike k k' e x a b =
      let (h, t) =
        same_key_unique e.hash e.key (crc32 k.bytes) (crc32 k'.bytes) k.bytes k'.bytes k.is_text
          k'.is_text a b in
      same_key-kept x.hash x.key (crc32 k.bytes) k.bytes k'.bytes t
      ∙ ap (λ q. same_key x.hash x.key q k'.bytes) h

  pub answers-count_on :
      (o : Observation) (k : Text) (e : TopEntry) → answers k (count_on o e) ≡ answers k e
  unfolding holds_key count_on
  answers-count_on o k e = refl

  pub answers-claim : (o : Observation) → holds_key crc32 o.key (claim crc32 o) ≡ true
  unfolding holds_key claim
  answers-claim o = same_key-store_key (crc32 o.key) o.key

  -- With a pool, at least one slot and counts that are words, an update with a text that is not
  -- empty keeps at most one slot for every text.
  pub update_top-HasDistinctKeys :
      (capacity : ℕ) (o : Observation) (entries : List TopEntry)
      → IsText o.key
      → o.key ≢ []
      → 0 < capacity
      → capacity ≤ length entries
      → HasWords entries
      → HasDistinctKeys capacity entries
      → HasDistinctKeys capacity (update_top crc32 true capacity o entries)
  update_top-HasDistinctKeys capacity o entries text ne pos fits w u =
      Effect-AreUnique answers answers-alike (λ e. e.hits) (count_on o) (claim crc32 o)
        (record { bytes = o.key; is_text = text; is_some = ne }) (answers-count_on o)
        (answers-claim o) capacity (update_top-TopEffect capacity o entries ne pos fits w) u

  -- A call with no pool, an empty key or no slot changes nothing.
  pub update_top-refused :
      (pool : Bool) (capacity : ℕ) (o : Observation) (entries : List TopEntry)
      → (pool ≡ false) ⊎ ((o.key ≡ []) ⊎ (capacity ≡ 0))
      → update_top crc32 pool capacity o entries ≡ entries
  unfolding update_top
  update_top-refused pool capacity o entries (inl e) = rw e
  update_top-refused false capacity o entries (inr h) = refl
  update_top-refused true capacity o entries (inr (inl e)) = rw e
  update_top-refused true capacity o entries (inr (inr e)) = ground (arith, eq→== capacity 0 e)
