-- ===== src/Top.antt =====
-- The top-URL and user-agent tables: `ngx_http_monitoring_top_entry_t` (src/ngx_http_monitoring.h)
-- and `ngx_http_monitoring_update_top` (src/ngx_http_monitoring_shm.c). `ngx_crc32_short` is a
-- function of nginx, the parameter `crc32`. The clock `ngx_time()` is the field `now`.
pub mod Laws
pub mod Counts
use ngx_http_monitoring_modu.Prelude.{
  ℕ, Bool, not, ◌||◌, List, length, replicate, add_word, ◌==◌, if◌then◌else◌,
}
use ngx_http_monitoring_modu.Slots.Key.{key_len, store_key, same_key}
use ngx_http_monitoring_modu.Slots.Table.{update_slot}

pub record TopEntry : Type 0 where
  pub hits : ℕ
  pub errors : ℕ
  pub bytes : ℕ
  pub latency_ms_total : ℕ
  pub last_seen : ℕ
  pub hash : ℕ
  pub key : List ℕ

-- A slot after `ngx_memzero`.
abbrev pub zero_entry : TopEntry
zero_entry = record {
  hits = 0;
  errors = 0;
  bytes = 0;
  latency_ms_total = 0;
  last_seen = 0;
  hash = 0;
  key = replicate key_len 0;
}

-- The arguments of one call, and the time of it.
pub record Observation : Type 0 where
  pub key : List ℕ
  pub latency : ℕ
  pub bytes : ℕ
  pub is_error : Bool
  pub now : ℕ

-- The atomic additions, which both ways through the function make.
abbrev pub add_use : Observation → TopEntry → TopEntry
add_use o e = record e {
  hits = add_word e.hits 1;
  bytes = add_word e.bytes o.bytes;
  latency_ms_total = add_word e.latency_ms_total o.latency;
  errors = if o.is_error then add_word e.errors 1 else e.errors;
}

-- The slot of the key is found in the loop.
unfoldable pub count_on : Observation → TopEntry → TopEntry
count_on o e = record (add_use o e) { last_seen = o.now }

module _ (crc32 : List ℕ → ℕ) where
  -- The comparison in the loop.
  unfoldable pub holds_key : List ℕ → TopEntry → Bool
  unfolding same_key
  holds_key key e = same_key e.hash e.key (crc32 key) key

  -- A slot is zeroed, gets the key, and is counted up.
  unfoldable pub claim : Observation → TopEntry
  unfolding store_key
  claim o =
      add_use o (record zero_entry { key = store_key o.key; hash = crc32 o.key; last_seen = o.now })

  -- `shpool` is false for a NULL pool; `capacity` is the number of slots in use, at most the length.
  unfoldable pub update_top : Bool → ℕ → Observation → List TopEntry → List TopEntry
  unfolding update_slot holds_key count_on claim
  update_top shpool capacity o entries =
      if not shpool || (length o.key == 0 || capacity == 0)
      then entries
      else update_slot (λ e. e.hits) (holds_key o.key) (count_on o) (claim o) capacity entries
