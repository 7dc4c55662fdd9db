-- ===== src/Upstream.antt =====
-- The upstream table: `ngx_http_monitoring_upstream_entry_t` (src/ngx_http_monitoring.h),
-- `ngx_http_monitoring_update_upstream_slot` and `ngx_http_monitoring_account_upstream`
-- (src/ngx_http_monitoring_shm.c). `ngx_crc32_short` is the parameter `crc32`.
pub mod Laws
use ngx_http_monitoring_modu.Prelude.{
  ℕ, Bool, ◌||◌, ◌&&◌, List, [], ◌∷◌, length, replicate, add_word, word_max, leb, ltb, codes, ◌==◌,
  if◌then◌else◌,
}
use ngx_http_monitoring_modu.Slots.Key.{key_len, store_key, same_key}
use ngx_http_monitoring_modu.Slots.Table.{update_slot}

-- NGX_HTTP_MONITORING_UPSTREAMS_MAX.
abbrev pub upstreams_max : ℕ
upstreams_max = 128

pub record UpstreamEntry : Type 0 where
  pub requests : ℕ
  pub failures : ℕ
  pub latency_ms_total : ℕ
  pub status_4xx : ℕ
  pub status_5xx : ℕ
  pub last_seen : ℕ
  pub hash : ℕ
  pub peer : List ℕ

-- A slot after `ngx_memzero`.
abbrev pub zero_entry : UpstreamEntry
zero_entry = record {
  requests = 0;
  failures = 0;
  latency_ms_total = 0;
  status_4xx = 0;
  status_5xx = 0;
  last_seen = 0;
  hash = 0;
  peer = replicate key_len 0;
}

-- The arguments of one call of `update_upstream_slot`, and the time of it.
pub record Attempt : Type 0 where
  pub peer : List ℕ
  pub latency : ℕ
  pub status : ℕ
  pub now : ℕ

-- `status == 0 || status >= 500`.
abbrev pub is_failure : ℕ → Bool
is_failure status = status == 0 || leb 500 status

-- `status >= 400 && status < 500`.
abbrev pub is_4xx : ℕ → Bool
is_4xx status = leb 400 status && ltb status 500

-- The atomic additions, which both ways through the function make.
abbrev pub add_attempt : Attempt → UpstreamEntry → UpstreamEntry
add_attempt a e = record e {
  requests = add_word e.requests 1;
  latency_ms_total = add_word e.latency_ms_total a.latency;
  failures = if is_failure a.status then add_word e.failures 1 else e.failures;
  status_4xx = if is_4xx a.status then add_word e.status_4xx 1 else e.status_4xx;
  status_5xx = if leb 500 a.status then add_word e.status_5xx 1 else e.status_5xx;
}

-- The slot of the peer is found in the loop.
unfoldable pub count_on : Attempt → UpstreamEntry → UpstreamEntry
count_on a e = record (add_attempt a e) { last_seen = a.now }

-- One element of `r->upstream_states`; a NULL peer is the empty one.
pub record UpstreamState : Type 0 where
  pub peer : List ℕ
  pub response_time : ℕ
  pub status : ℕ

-- The peer and the latency that `account_upstream` passes on; `(ngx_msec_t) -1` is an unset time.
unfoldable pub attempt_of : ℕ → ℕ → UpstreamState → Attempt
attempt_of now latency s = record {
  peer = if length s.peer == 0 then codes "unknown" else s.peer;
  latency = if s.response_time == word_max then latency else s.response_time;
  status = s.status;
  now = now;
}

module _ (crc32 : List ℕ → ℕ) where
  -- The comparison in the loop.
  unfoldable pub holds_peer : List ℕ → UpstreamEntry → Bool
  unfolding same_key
  holds_peer peer e = same_key e.hash e.peer (crc32 peer) peer

  -- A slot is zeroed, gets the peer, and is counted up.
  unfoldable pub claim : Attempt → UpstreamEntry
  unfolding store_key
  claim a =
      add_attempt a
        (record zero_entry { peer = store_key a.peer; hash = crc32 a.peer; last_seen = a.now })

  unfoldable pub update_upstream_slot : ℕ → Attempt → List UpstreamEntry → List UpstreamEntry
  unfolding update_slot holds_peer count_on claim
  update_upstream_slot capacity a entries =
      if length a.peer == 0 || capacity == 0
      then entries
      else update_slot (λ e. e.requests) (holds_peer a.peer) (count_on a) (claim a) capacity entries

  -- The `for` over the upstream states of the request.
  unfoldable pub account_states :
      ℕ → ℕ → List UpstreamState → List UpstreamEntry → List UpstreamEntry
  unfolding update_upstream_slot attempt_of
  account_states now latency [] entries = entries
  account_states now latency (s ∷ states) entries =
      account_states now latency states
        (update_upstream_slot upstreams_max (attempt_of now latency s) entries)
