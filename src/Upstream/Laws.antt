-- ===== src/Upstream/Laws.antt =====
-- What the upstream table keeps true, whichever peers answer and however they fail.
use ngx_http_monitoring_modu.Prelude.{
  ℕ, suc, ◌+◌, ◌≤◌, ◌<◌, ◌≡◌, ◌≢◌, refl, ◌∙◌, ap, length-ne-zero, List, [], ◌∷◌, arith, length,
  length-set, All, All-set, All-get_elem?, word_max, ne→==, eq→==,
}
use native.Mathlib.Decide.{ℕ_discrete}
use ngx_http_monitoring_modu.Slots.Table.Laws.{Effect, counted, claims, update_slot-Effect}
use ngx_http_monitoring_modu.Upstream.{
  UpstreamEntry, Attempt, UpstreamState, zero_entry, upstreams_max, count_on, holds_peer, claim,
  update_upstream_slot, attempt_of, account_states,
}

-- The counters of a slot fit together: no more failures than requests, no more client and server
-- errors than requests, and every server error is a failure.
pub record IsConsistent (e : UpstreamEntry) : Type 0 where
  pub word : e.requests ≤ word_max
  pub failed : e.failures ≤ e.requests
  pub errors : e.status_4xx + e.status_5xx ≤ e.requests
  pub server : e.status_5xx ≤ e.failures

abbrev pub AreConsistent : List UpstreamEntry → Type 0
AreConsistent = All IsConsistent

-- No slot wraps around in the next `n` updates.
abbrev pub HaveRoom : ℕ → List UpstreamEntry → Type 0
HaveRoom n = All (λ e. e.requests + n ≤ word_max)

zero_entry-IsConsistent : IsConsistent zero_entry
zero_entry-IsConsistent = omega arith

count_on-IsConsistent :
    (a : Attempt) (e : UpstreamEntry)
    → IsConsistent e
    → e.requests < word_max
    → IsConsistent (count_on a e)
unfolding count_on
count_on-IsConsistent a e c h = ground arith

module _ (crc32 : List ℕ → ℕ) where
  claim-IsConsistent : (a : Attempt) → IsConsistent (claim crc32 a)
  unfolding claim
  claim-IsConsistent a = ground arith

  abbrev pub UpstreamEffect : ℕ → Attempt → List UpstreamEntry → List UpstreamEntry → Type 0
  UpstreamEffect capacity a =
      Effect (λ e. e.requests) (holds_peer crc32 a.peer) (count_on a) (claim crc32 a) capacity

  words :
      (entries : List UpstreamEntry)
      → AreConsistent entries
      → All (λ e. e.requests ≤ word_max) entries
  words [] c = tt
  words (e ∷ entries) c = (c.0.word, words entries c.1)

  -- With a peer that is not empty, at least one slot and consistent counters, an update counts on
  -- in a slot that holds the peer; or else it overwrites a slot while no other one holds
  -- the peer, and that slot was free, or else all were in use, none held the peer and none had
  -- fewer requests. No other slot changes.
  pub update_upstream_slot-UpstreamEffect :
      (capacity : ℕ) (a : Attempt) (entries : List UpstreamEntry)
      → a.peer ≢ []
      → 0 < capacity
      → capacity ≤ length entries
      → AreConsistent entries
      → UpstreamEffect capacity a entries (update_upstream_slot crc32 capacity a entries)
  unfolding update_upstream_slot
  update_upstream_slot-UpstreamEffect capacity a entries ne pos fits c =
      rw (ne→== (length a.peer) 0 (length-ne-zero ne), ne→== capacity 0 (omega arith))
        (update_slot-Effect (λ e. e.requests) (holds_peer crc32 a.peer) (count_on a) (claim crc32 a)
          capacity entries fits pos (words entries c))

  -- What an update with room keeps: consistent counters, the size of the table, and the room for
  -- one update less.
  record IsKept (n : ℕ) (entries entries' : List UpstreamEntry) : Type 0 where
    consistent : AreConsistent entries'
    room : HaveRoom n entries'
    size : length entries' ≡ length entries

  HaveRoom-less :
      (n : ℕ) (entries : List UpstreamEntry) → HaveRoom (suc n) entries → HaveRoom n entries
  HaveRoom-less n [] h = tt
  HaveRoom-less n (e ∷ entries) h = (omega arith, HaveRoom-less n entries h.1)

  requests-count_on : (a : Attempt) (e : UpstreamEntry) → (count_on a e).requests ≤ e.requests + 1
  unfolding count_on
  requests-count_on a e = omega arith

  requests-claim : (a : Attempt) → (claim crc32 a).requests ≡ 1
  unfolding claim
  requests-claim a = refl

  UpstreamEffect-IsKept :
      (capacity : ℕ) (a : Attempt) (n : ℕ) (entries entries' : List UpstreamEntry)
      → n < word_max
      → UpstreamEffect capacity a entries entries'
      → AreConsistent entries
      → HaveRoom (suc n) entries
      → IsKept n entries entries'
  UpstreamEffect-IsKept capacity a n entries entries' b (counted p e _ g _) c h =
      let room = All-get_elem? (λ x. x.requests + suc n ≤ word_max) entries p h g in
      record {
        consistent =
            All-set _ entries p (count_on a e)
              (count_on-IsConsistent a e (All-get_elem? _ entries p c g) (omega arith)) c;
        room =
            All-set _ entries p (count_on a e) (omega (arith, requests-count_on a e))
              (HaveRoom-less n entries h);
        size = length-set entries p (count_on a e);
      }
  UpstreamEffect-IsKept capacity a n entries entries' b (claims p e _ _ _ _) c h = record {
    consistent = All-set _ entries p (claim crc32 a) (claim-IsConsistent a) c;
    room =
        All-set _ entries p (claim crc32 a) (omega (arith, requests-claim a))
          (HaveRoom-less n entries h);
    size = length-set entries p (claim crc32 a);
  }

  length-ne-nil : (xs : List ℕ) → length xs ≢ 0 → xs ≢ []
  length-ne-nil xs h e = h (ap length e)

  attempt_of-peer : (now latency : ℕ) (s : UpstreamState) → (attempt_of now latency s).peer ≢ []
  unfolding attempt_of
  attempt_of-peer now latency s = elim (ℕ_discrete (length s.peer) 0) [
    | yes z ↦ rw (eq→== (length s.peer) 0 z) (λ e. cc)
    | no n ↦ rw (ne→== (length s.peer) 0 n) (length-ne-nil s.peer n)
  ]

  account_states-IsKept :
      (now latency : ℕ) (states : List UpstreamState) (entries : List UpstreamEntry)
      → length entries ≡ upstreams_max
      → length states < word_max
      → AreConsistent entries
      → HaveRoom (length states) entries
      → IsKept 0 entries (account_states crc32 now latency states entries)
  unfolding account_states
  account_states-IsKept now latency [] entries size b c h = record {
    consistent = c;
    room = h;
    size = refl;
  }
  account_states-IsKept now latency (s ∷ states) entries size b c h =
      let a = attempt_of now latency s in
      let next = update_upstream_slot crc32 upstreams_max a entries in
      let one =
        UpstreamEffect-IsKept upstreams_max a (length states) entries next (omega arith)
          (update_upstream_slot-UpstreamEffect upstreams_max a entries
            (attempt_of-peer now latency s) (omega arith) (omega arith) c)
          c h in
      let rest =
        account_states-IsKept now latency states next (one.size ∙ size) (omega arith) one.consistent
          one.room in
      record { consistent = rest.consistent; room = rest.room; size = rest.size ∙ one.size }

  -- Accounting the upstream attempts of a request keeps the counters of all 128 slots consistent,
  -- unless one of them wraps around.
  pub account_states-AreConsistent :
      (now latency : ℕ) (states : List UpstreamState) (entries : List UpstreamEntry)
      → length entries ≡ upstreams_max
      → length states < word_max
      → AreConsistent entries
      → HaveRoom (length states) entries
      → AreConsistent (account_states crc32 now latency states entries)
  account_states-AreConsistent now latency states entries size b c h =
      (account_states-IsKept now latency states entries size b c h).consistent
