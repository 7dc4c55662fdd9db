-- ===== src/Json/Call.antt =====
-- The calls of the writer of src/ngx_http_monitoring_json.c, as values: a function that writes a part
-- of a document is the list of the calls that it makes.
pub mod Completes
use ngx_http_monitoring_modu.Prelude.{ℕ, Bool, true, false, ◌||◌, List, [], ◌∷◌, ◌++◌}
use ngx_http_monitoring_modu.Format.{Piece, Digits, render}
use ngx_http_monitoring_modu.Json.{JsonWriter, fail, json_append, json_printf, json_string}

-- `json_append`, `json_printf`, `json_string`, and `jw->failed = 1` with an early return.
pub data Call (Double : Type 0) : Type 0 where
  append : List ℕ → Call Double
  printf : List (Piece Double) → Call Double
  string : List ℕ → Call Double
  give_up : Call Double

module _ {Double : Type 0} (digits : Digits Double) (hex : ℕ → List ℕ) where
  unfoldable pub call : JsonWriter → Call Double → JsonWriter
  unfolding json_append json_printf json_string render
  call jw (append s) = json_append jw s
  call jw (printf pieces) = json_printf jw (render digits pieces)
  call jw (string bytes) = json_string hex jw bytes
  call jw give_up = fail jw

  abbrev pub calls : JsonWriter → List (Call Double) → JsonWriter
  calls jw [] = jw
  calls jw (c ∷ cs) = calls (call jw c) cs
