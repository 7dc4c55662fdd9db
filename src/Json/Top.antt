-- ===== src/Json/Top.antt =====
-- The top URLs and user agents of a document: `ngx_http_monitoring_top_view_t`,
-- `ngx_http_monitoring_sort_top` and `ngx_http_monitoring_json_top_entries`
-- (src/ngx_http_monitoring_json.c).
pub mod Sorted
use ngx_http_monitoring_modu.Prelude.{
  ℕ, List, [], ◌∷◌, ◌++◌, Bool, String, codes, map, replicate, ltb, ◌==◌, if◌then◌else◌,
}
use ngx_http_monitoring_modu.Top.{TopEntry}
use ngx_http_monitoring_modu.Slots.Key.{key_len}
use ngx_http_monitoring_modu.History.{DoubleOps}
use ngx_http_monitoring_modu.Format.{lit, num, real}
use ngx_http_monitoring_modu.Collect.Libc.{c_string}
use ngx_http_monitoring_modu.Json.Call.{Call, append, printf, string, give_up}
use ngx_http_monitoring_modu.Json.Tables.{separated, mean}

pub record TopView : Type 0 where
  pub key : List ℕ
  pub hits : ℕ
  pub errors : ℕ
  pub bytes : ℕ
  pub latency_ms_total : ℕ
  pub last_seen : ℕ

-- The `while`: `prev` is the sorted part, with `v[j - 1]` first and `v[0]` last.
abbrev pub insert_top : TopView → List TopView → List TopView
insert_top tmp [] = tmp ∷ []
insert_top tmp (x ∷ prev) =
    let rest = insert_top tmp prev in if ltb x.hits tmp.hits then x ∷ rest else tmp ∷ x ∷ prev

-- The `for`.
abbrev pub sort_from : List TopView → List TopView → List TopView
sort_from prev [] = prev
sort_from prev (tmp ∷ v) = sort_from (insert_top tmp prev) v

abbrev pub reverse_onto : {A : Type 0} → List A → List A → List A
reverse_onto [] ys = ys
reverse_onto (x ∷ xs) ys = reverse_onto xs (x ∷ ys)

unfoldable pub sort_top : List TopView → List TopView
sort_top v = reverse_onto (sort_from [] v) []

-- `cpystrn dst src n` is the array `dst` after `ngx_cpystrn`; the view is zeroed before.
abbrev pub view_of : (List ℕ → List ℕ → ℕ → List ℕ) → TopEntry → TopView
view_of cpystrn e = record {
  key = cpystrn (replicate key_len 0) e.key key_len;
  hits = e.hits;
  errors = e.errors;
  bytes = e.bytes;
  latency_ms_total = e.latency_ms_total;
  last_seen = e.last_seen;
}

-- The slots in use.
abbrev pub views : (List ℕ → List ℕ → ℕ → List ℕ) → List TopEntry → List TopView
views cpystrn [] = []
views cpystrn (e ∷ entries) =
    let rest = views cpystrn entries in if e.hits == 0 then rest else view_of cpystrn e ∷ rest

module _ {Double : Type 0} (ops : DoubleOps Double) (cpystrn : List ℕ → List ℕ → ℕ → List ℕ) where
  unfoldable pub top_row : String → TopView → List (Call Double)
  top_row key_name v =
      append (codes "{\"")
      ∷ append (codes key_name)
      ∷ append (codes "\":")
      ∷ string (c_string v.key)
      ∷ printf (
          lit ",\"hits\":"
          ∷ num v.hits
          ∷ lit ",\"errors\":"
          ∷ num v.errors
          ∷ lit ",\"bytes\":"
          ∷ num v.bytes
          ∷ lit ",\"avg_latency\":"
          ∷ real 3 (mean ops v.latency_ms_total v.hits)
          ∷ lit ",\"last_seen\":"
          ∷ num v.last_seen
          ∷ lit "}"
          ∷ [])
      ∷ []

  -- `allocated` is whether `ngx_pcalloc` gives the view.
  unfoldable pub json_top_entries : Bool → List TopEntry → String → List (Call Double)
  unfolding sort_top top_row
  json_top_entries allocated entries key_name =
      if allocated
      then append (codes "[")
        ∷ (separated (map (top_row key_name) (sort_top (views cpystrn entries)))
            ++ (append (codes "]") ∷ []))
      else give_up ∷ []
