-- ===== src/Tests/Tables.antt =====
-- The tables at concrete inputs.
use ngx_http_monitoring_modu.Prelude.{
  ℕ, ◌+◌, ◌≤◌, ◌≡◌, ◌≢◌, refl, true, false, List, [], ◌∷◌, codes, arith, word_max, replicate, ◌==◌,
  All, All-replicate,
}
use ngx_http_monitoring_modu.Slots.Search.{miss, search}
use ngx_http_monitoring_modu.Slots.Search.Laws.{Outcome, search-Outcome}
use ngx_http_monitoring_modu.Slots.Key.{same_key, store_key}
use ngx_http_monitoring_modu.Slots.Key.Laws.{IsText, kept, same_key_unique}
use ngx_http_monitoring_modu.Top.{Observation, TopEntry, update_top}
use ngx_http_monitoring_modu.Top
use ngx_http_monitoring_modu.Top.Laws.{
  TopEffect, HasDistinctKeys, update_top-TopEffect, update_top-HasDistinctKeys,
}
use ngx_http_monitoring_modu.Top.Counts.{IsBounded, IsUsable, after, zeroed, after-IsBounded}
use ngx_http_monitoring_modu.Upstream.{
  UpstreamEntry, Attempt, UpstreamState, upstreams_max, update_upstream_slot, account_states,
}
use ngx_http_monitoring_modu.Upstream
use ngx_http_monitoring_modu.Upstream.Laws.{
  AreConsistent, IsConsistent, HaveRoom, UpstreamEffect, update_upstream_slot-UpstreamEffect,
  account_states-AreConsistent,
}
use ngx_http_monitoring_modu.Tests.{first_byte}

searched : search (λ n. n) (λ n. n == 9) 3 (5 ∷ 2 ∷ 4 ∷ []) ≡ miss 3 1
unfolding search
searched = refl

-- The least used of three numbers, where none is the key 9.
search-Outcome_example : Outcome (λ n. n) (λ n. n == 9) 3 (5 ∷ 2 ∷ 4 ∷ []) (miss 3 1)
search-Outcome_example =
    search-Outcome (λ n. n) (λ n. n == 9) 3 (5 ∷ 2 ∷ 4 ∷ []) (miss 3 1) refl (omega arith)
      (omega arith) searched

abbrev a_key : List ℕ
a_key = codes "/a"

a_key-IsText : IsText a_key
a_key-IsText = omega arith

-- Two keys that agree in the 127 bytes that a slot keeps.
abbrev long : ℕ → List ℕ
long n = replicate n 97

long-IsText : (n : ℕ) → IsText (long n)
long-IsText n = All-replicate (λ c. c ≢ 0) n 97 (omega arith)

stored_long : same_key 97 (store_key (long 130)) 97 (long 130) ≡ true
unfolding same_key store_key
stored_long = refl

stored_other : same_key 97 (store_key (long 130)) 97 (long 128) ≡ true
unfolding same_key store_key
stored_other = refl

same_key_unique_example :
    (first_byte (long 130) ≡ first_byte (long 128)) × (kept (long 130) ≡ kept (long 128))
same_key_unique_example =
    same_key_unique 97 (store_key (long 130)) 97 97 (long 130) (long 128) (long-IsText 130)
      (long-IsText 128) stored_long stored_other

abbrev hit_of : List ℕ → Observation
hit_of key = record { key = key; latency = 12; bytes = 100; is_error = false; now = 50 }

abbrev urls : List TopEntry
urls = replicate 4 Top.zero_entry

update_top-TopEffect_example :
    TopEffect first_byte 2 (hit_of a_key) urls (update_top first_byte true 2 (hit_of a_key) urls)
update_top-TopEffect_example =
    update_top-TopEffect first_byte 2 (hit_of a_key) urls (λ e. cc) (omega arith) (omega arith)
      (omega arith)

urls-HasDistinctKeys : HasDistinctKeys first_byte 1 urls
urls-HasDistinctKeys k i j x y i< j< gx gy sx sy = omega arith

update_top-HasDistinctKeys_example :
    HasDistinctKeys first_byte 1 (update_top first_byte true 1 (hit_of a_key) urls)
update_top-HasDistinctKeys_example =
    update_top-HasDistinctKeys first_byte 1 (hit_of a_key) urls a_key-IsText (λ e. cc) (omega arith)
      (omega arith) (omega arith) urls-HasDistinctKeys

abbrev observations : List Observation
observations = hit_of (codes "/a") ∷ hit_of (codes "b") ∷ hit_of (codes "/a") ∷ []

observations-IsUsable : All IsUsable observations
observations-IsUsable =
    ((a_key-IsText, λ e. cc), ((omega arith, λ e. cc), ((a_key-IsText, λ e. cc), tt)))

-- Two texts compete for one slot.
after-IsBounded_example :
    IsBounded first_byte 1 observations (after first_byte 1 observations (zeroed first_byte 4))
after-IsBounded_example =
    after-IsBounded first_byte 4 1 observations (omega arith) (omega arith) observations-IsUsable

abbrev peers : List UpstreamEntry
peers = replicate upstreams_max Upstream.zero_entry

peers-AreConsistent : AreConsistent peers
peers-AreConsistent = All-replicate IsConsistent upstreams_max Upstream.zero_entry (omega arith)

abbrev failed : Attempt
failed = record { peer = codes "p:80"; latency = 9; status = 502; now = 50 }

update_upstream_slot-UpstreamEffect_example :
    UpstreamEffect first_byte upstreams_max failed peers
      (update_upstream_slot first_byte upstreams_max failed peers)
update_upstream_slot-UpstreamEffect_example =
    update_upstream_slot-UpstreamEffect first_byte upstreams_max failed peers (λ e. cc)
      (omega arith) (omega arith) peers-AreConsistent

abbrev states : List UpstreamState
states =
    record { peer = codes "p:80"; response_time = word_max; status = 502 }
    ∷ record { peer = []; response_time = 20; status = 404 }
    ∷ []

peers-HaveRoom : HaveRoom 2 peers
peers-HaveRoom =
    All-replicate (λ e. e.requests + 2 ≤ word_max) upstreams_max Upstream.zero_entry (omega arith)

account_states-AreConsistent_example : AreConsistent (account_states first_byte 50 30 states peers)
account_states-AreConsistent_example =
    account_states-AreConsistent first_byte 50 30 states peers refl (omega arith)
      peers-AreConsistent peers-HaveRoom
