-- ===== src/Json.antt =====
-- The bounded writer of src/ngx_http_monitoring_json.c: `ngx_http_monitoring_json_append`,
-- `ngx_http_monitoring_json_printf` and `ngx_http_monitoring_json_string`. What `ngx_vslprintf`
-- formats is a parameter.
pub mod Laws
pub mod Call
pub mod Tables
pub mod Documents
pub mod Top
pub mod Requests
pub mod Send
pub mod Reads
use ngx_http_monitoring_modu.Prelude.{
  ℕ, ◌-◌, Bool, true, ◌||◌, List, [], ◌∷◌, ◌++◌, length, codes, ltb, leb, ◌==◌, if◌then◌else◌,
}

-- The buffer from its start to `last`, the bytes written up to `pos`, and `failed`.
pub record JsonWriter : Type 0 where
  pub size : ℕ
  pub written : List ℕ
  pub failed : Bool

-- `jw->last - jw->pos`.
abbrev pub room : JsonWriter → ℕ
room jw = jw.size - length jw.written

abbrev pub fail : JsonWriter → JsonWriter
fail jw = record jw { failed = true }

abbrev pub wrote : JsonWriter → List ℕ → JsonWriter
wrote jw s = record jw { written = jw.written ++ s }

unfoldable pub json_append : JsonWriter → List ℕ → JsonWriter
json_append jw s =
    if jw.failed then jw else if ltb (room jw) (length s) then fail jw else wrote jw s

-- `text` is the whole formatted text, which `ngx_vslprintf` cuts off at `last`.
unfoldable pub json_printf : JsonWriter → List ℕ → JsonWriter
json_printf jw text =
    if jw.failed
    then jw
    else if leb (room jw) 1
    then fail jw
    else if leb (room jw) (length text)
    then fail jw
    else wrote jw text

-- `hex c` is what `ngx_vslprintf` writes from the conversion of the format `\\u%04x` on: `x` there is
-- a modifier of a type letter, which is missing.
module _ (hex : ℕ → List ℕ) where
  -- The body of the loop.
  unfoldable pub put_byte : JsonWriter → ℕ → JsonWriter
  unfolding json_append json_printf
  put_byte jw c =
      if c == 34 || c == 92
      then (if ltb (room jw) 2 then fail jw else wrote jw (92 ∷ c ∷ []))
      else if c == 10
      then json_append jw (codes "\\n")
      else if c == 13
      then json_append jw (codes "\\r")
      else if c == 9
      then json_append jw (codes "\\t")
      else if ltb c 32
      then json_printf jw (codes "\\u" ++ hex c)
      else if ltb (room jw) 1
      then fail jw
      else wrote jw (c ∷ [])

  -- The loop; a failed writer ends it.
  pub put_bytes : JsonWriter → List ℕ → JsonWriter
  unfolding put_byte
  put_bytes jw [] = jw
  put_bytes jw (c ∷ bytes) =
      let rest = put_bytes (put_byte jw c) bytes in if jw.failed then jw else rest

  unfoldable pub json_string : JsonWriter → List ℕ → JsonWriter
  unfolding put_bytes
  json_string jw bytes = json_append (put_bytes (json_append jw (codes "\"")) bytes) (codes "\"")
