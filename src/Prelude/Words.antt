-- ===== src/Prelude/Words.antt =====
-- Unsigned 64-bit words: `ngx_atomic_uint_t`, `ngx_uint_t`, `ngx_msec_t`, `size_t` and `uint64_t`
-- of a 64-bit build. Every operation writes its wrap-around out.
use Prim.Native.Nat.{ℕ, ◌+◌, ◌-◌, ◌*◌, ◌%◌, ◌^◌}

abbrev pub word_mod : ℕ
word_mod = 2 ^ 64

-- The largest word, `(ngx_atomic_uint_t) -1`.
abbrev pub word_max : ℕ
word_max = 2 ^ 64 - 1

-- `a + b`, and the new value that `ngx_atomic_fetch_add(&a, b)` stores.
abbrev pub add_word : ℕ → ℕ → ℕ
add_word a b = (a + b) % 2 ^ 64

abbrev pub sub_word : ℕ → ℕ → ℕ
sub_word a b = (a + (2 ^ 64 - b % 2 ^ 64)) % 2 ^ 64

abbrev pub mul_word : ℕ → ℕ → ℕ
mul_word a b = (a * b) % 2 ^ 64

-- Signed numbers: `ngx_int_t`, `off_t`, `time_t`. `negsuc n` is -(n + 1).
pub data ℤ : Type 0 where
  pos : ℕ → ℤ
  negsuc : ℕ → ℤ
