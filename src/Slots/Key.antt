-- ===== src/Slots/Key.antt =====
-- The stored key of a slot: a NUL-terminated copy in an array of KEY_LEN bytes, and its comparison
-- with a byte string.
pub mod Laws
use ngx_http_monitoring_modu.Prelude.{
  ℕ, ◌-◌, ◌==◌, Bool, ◌&&◌, List, ◌++◌, length, get_or, take, replicate, min, strncmp_eq,
}

-- NGX_HTTP_MONITORING_KEY_LEN.
abbrev pub key_len : ℕ
key_len = 128

-- `ngx_min(key->len, NGX_HTTP_MONITORING_KEY_LEN - 1)`.
abbrev pub stored_len : List ℕ → ℕ
stored_len key = min (length key) (key_len - 1)

-- `ngx_memzero` of the array, `ngx_memcpy` of `len` bytes and the NUL behind them.
unfoldable pub store_key : List ℕ → List ℕ
store_key key = let len = stored_len key in take len key ++ replicate (key_len - len) 0

-- The condition on a slot's array `stored` in the loops: the hashes agree, and so do the stored
-- bytes up to their NUL.
unfoldable pub same_key : ℕ → List ℕ → ℕ → List ℕ → Bool
same_key stored_hash stored hash key =
    stored_hash == hash
    && (strncmp_eq stored key (stored_len key) && get_or stored (stored_len key) 0 == 0)
