-- ===== src/Top/Counts.antt =====
-- The counts of a top table against the history of its updates.
use ngx_http_monitoring_modu.Prelude.{
  ℕ, ◌+◌, ◌≤◌, ◌<◌, ◌≡◌, ◌≢◌, refl, sym, ◌∙◌, ap, subst, Bool, true, ◌&&◌, List, [], ◌∷◌, arith,
  length, length-set, length-replicate, replicate, All, All-set, All-replicate, All-get_elem?,
  get_elem?, get_elem?-lt, get_elem?-set_cases, some, inl, inr, word_max, ◌==◌, eq→==, bytes_eq,
  bytes_eq_refl, if◌then◌else◌,
}
use ngx_http_monitoring_modu.Slots.Key.Laws.{IsText, kept, same_key_unique}
use ngx_http_monitoring_modu.Slots.Table.Laws.{counted, claims}
use ngx_http_monitoring_modu.Top.{
  TopEntry, Observation, zero_entry, count_on, holds_key, claim, update_top,
}
use ngx_http_monitoring_modu.Top.Laws.{
  Text, HasWords, answers, TopEffect, update_top-TopEffect, answers-count_on, answers-claim,
}

-- A request whose key the table can take.
abbrev pub IsUsable : Observation → Type 0
IsUsable o = IsText o.key × (o.key ≢ [])

module _ (crc32 : List ℕ → ℕ) where
  -- The table after these updates, newest first.
  pub after : ℕ → List Observation → List TopEntry → List TopEntry
  after capacity [] entries = entries
  after capacity (o ∷ history) entries =
      update_top crc32 true capacity o (after capacity history entries)

  -- Two keys that the table does not tell apart: the hashes and the kept bytes agree.
  abbrev pub same_text : List ℕ → List ℕ → Bool
  same_text key other = crc32 key == crc32 other && bytes_eq (kept key) (kept other)

  -- How many of the updates were for the key.
  abbrev pub occurrences : List ℕ → List Observation → ℕ
  occurrences key [] = 0
  occurrences key (o ∷ history) = (if same_text key o.key then 1 else 0) + occurrences key history

  -- No slot counts more hits than its key had.
  abbrev pub IsBounded : ℕ → List Observation → List TopEntry → Type 0
  IsBounded capacity history entries =
      (k : Text) (i : ℕ) (x : TopEntry)
      → i < capacity
      → get_elem? entries i ≡ some x
      → answers crc32 k x ≡ true
      → x.hits ≤ occurrences k.bytes history

  same_text-of_answers :
      (k o : Text) (e : TopEntry)
      → answers crc32 k e ≡ true
      → answers crc32 o e ≡ true
      → same_text k.bytes o.bytes ≡ true
  unfolding holds_key
  same_text-of_answers k o e a b =
      let (h, t) =
        same_key_unique e.hash e.key (crc32 k.bytes) (crc32 o.bytes) k.bytes o.bytes k.is_text
          o.is_text a b in
      rw (eq→== (crc32 k.bytes) (crc32 o.bytes) h, t) (bytes_eq_refl (kept o.bytes))

  hits-count_on : (o : Observation) (e : TopEntry) → (count_on o e).hits ≤ e.hits + 1
  unfolding count_on
  hits-count_on o e = omega arith

  hits-claim : (o : Observation) → (claim crc32 o).hits ≡ 1
  unfolding claim
  hits-claim o = refl

  count_on-le-word_max : (o : Observation) (e : TopEntry) → (count_on o e).hits ≤ word_max
  unfolding count_on
  count_on-le-word_max o e = omega arith

  module _ (capacity : ℕ) (o : Observation) (usable : IsUsable o) (history : List Observation) where
    abbrev asked : Text
    asked = record { bytes = o.key; is_text = usable.0; is_some = usable.1 }

    Effect-IsBounded :
        {entries entries' : List TopEntry}
        → TopEffect crc32 capacity o entries entries'
        → IsBounded capacity history entries
        → IsBounded capacity (o ∷ history) entries'
    Effect-IsBounded {entries} (counted p e p< g s) b k i x i< gx ax =
        elim (get_elem?-set_cases entries p i (count_on o e) x (get_elem?-lt entries p g) gx) [
          | inl (ip, xv) ↦
              let ae =
                sym (answers-count_on crc32 o k e) ∙ subst (λ z. answers crc32 k z ≡ true) xv ax in
              rw (same_text-of_answers k asked e ae s) (
                omega (arith, ap (λ (z : TopEntry). z.hits) xv, hits-count_on o e, b k p e p< g ae))
          | inr (_, gx') ↦ omega (arith, b k i x i< gx' ax)
        ]
    Effect-IsBounded {entries} (claims p e p< g _ _) b k i x i< gx ax =
        elim (get_elem?-set_cases entries p i (claim crc32 o) x (get_elem?-lt entries p g) gx) [
          | inl (ip, xv) ↦
              rw
                (same_text-of_answers k asked (claim crc32 o)
                  (subst (λ z. answers crc32 k z ≡ true) xv ax) (answers-claim crc32 o))
                (omega (arith, ap (λ (z : TopEntry). z.hits) xv, hits-claim o))
          | inr (_, gx') ↦ omega (arith, b k i x i< gx' ax)
        ]

    Effect-HasWords :
        {entries entries' : List TopEntry}
        → TopEffect crc32 capacity o entries entries'
        → HasWords entries
        → HasWords entries' × (length entries' ≡ length entries)
    Effect-HasWords {entries} (counted p e _ _ _) w = (
      All-set _ entries p (count_on o e) (count_on-le-word_max o e) w,
      length-set entries p (count_on o e),
    )
    Effect-HasWords {entries} (claims p e _ _ _ _) w = (
      All-set _ entries p (claim crc32 o) (omega (arith, hits-claim o)) w,
      length-set entries p (claim crc32 o),
    )

  -- The table of a new zone.
  abbrev pub zeroed : ℕ → List TopEntry
  zeroed slots = replicate slots zero_entry

  zero_hits : (slots i : ℕ) (x : TopEntry) → get_elem? (zeroed slots) i ≡ some x → x.hits ≡ 0
  zero_hits slots i x g =
      All-get_elem? (λ e. e.hits ≡ 0) (zeroed slots) i (All-replicate _ slots zero_entry refl) g

  record Kept (slots capacity : ℕ) (history : List Observation) : Type 0 where
    words : HasWords (after capacity history (zeroed slots))
    size : length (after capacity history (zeroed slots)) ≡ slots
    bounded : IsBounded capacity history (after capacity history (zeroed slots))

  after-Kept :
      (slots capacity : ℕ) (history : List Observation)
      → 0 < capacity
      → capacity ≤ slots
      → All IsUsable history
      → Kept slots capacity history
  unfolding after
  after-Kept slots capacity [] pos fits usable = record {
    words = All-replicate _ slots zero_entry (omega arith);
    size = length-replicate slots zero_entry;
    bounded = λ k i x i< g _. omega (arith, zero_hits slots i x g);
  }
  after-Kept slots capacity (o ∷ history) pos fits usable =
      let old = after-Kept slots capacity history pos fits usable.1 in
      let effect =
        update_top-TopEffect crc32 capacity o (after capacity history (zeroed slots)) usable.0.1 pos
          (omega (arith, old.size)) old.words in
      let (w, l) = Effect-HasWords capacity o usable.0 history effect old.words in
      record {
        words = w;
        size = l ∙ old.size;
        bounded = Effect-IsBounded capacity o usable.0 history effect old.bounded;
      }

  -- From a zeroed table with room for at least one slot, after any updates with texts that are not
  -- empty, however many of them replaced slots: a slot that answers to a text counts no more hits
  -- than there were updates with texts that the table cannot tell from it, those with the same hash
  -- and the same kept bytes.
  pub after-IsBounded :
      (slots capacity : ℕ) (history : List Observation)
      → 0 < capacity
      → capacity ≤ slots
      → All IsUsable history
      → IsBounded capacity history (after capacity history (zeroed slots))
  after-IsBounded slots capacity history pos fits usable =
      (after-Kept slots capacity history pos fits usable).bounded
