-- ===== src/Tests/Text.antt =====
-- The JSON writer, the order of the top entries and the documents at concrete inputs.
use ngx_http_monitoring_modu.Prelude.{
  ℕ, ◌≡◌, ◌≢◌, ◌⊎◌, ◌++◌, refl, true, false, some, none, if◌then◌else◌, List, [], ◌∷◌, codes, arith,
}
use mathlib.Core.List.{Perm}
use ngx_http_monitoring_modu.Json.{JsonWriter, json_string}
use ngx_http_monitoring_modu.Json.Laws.{Writes, quoted}
use ngx_http_monitoring_modu.Json.Reads.{plain, read_from, all_clean, read-json_string}
use ngx_http_monitoring_modu.Json.Top.{TopView, sort_top}
use ngx_http_monitoring_modu.Json.Top.Sorted.{Descending, sort_top-Descending}
use ngx_http_monitoring_modu.Json.Send.{
  view_count, json_document, prometheus_document, health_document, send_json, send_prometheus,
  send_health,
}
use ngx_http_monitoring_modu.Json.Send.Whole.{IsWhole, past, send_documents-IsWhole}
use ngx_http_monitoring_modu.Json.Send.Given.{has_views}
use ngx_http_monitoring_modu.Endpoint.{api_system, health, live}
use ngx_http_monitoring_modu.Handler.{dispatch}
use ngx_http_monitoring_modu.Respond.{Outside, senders}
use ngx_http_monitoring_modu.Respond.Unchanged.{dispatch-zone}
use ngx_http_monitoring_modu.Tests.{nginx, request, process, main_conf, zone, exchange, digits}
use ngx_http_monitoring_modu.Tests.Ring.{ops, scaled, z}

abbrev writer : JsonWriter
writer = record { size = 16; written = codes "[]"; failed = false }

-- The NUL of the format's end, and what is behind it in memory.
abbrev hex : ℕ → List ℕ
hex c = 0 ∷ codes "/"

-- With a byte below 32, what is written is no JSON string.
abbrev text : List ℕ
text = 97 ∷ 34 ∷ 1 ∷ []

read-json_string_example :
    Writes writer (json_string hex writer text) (quoted hex text)
    × (((json_string hex writer text).failed ≡ true)
        ⊎ ((body : List ℕ) × ((json_string hex writer text).written ≡ writer.written ++ (34 ∷ body))
            × (read_from plain body ≡ (if all_clean text then some (text, []) else none))))
read-json_string_example =
    read-json_string hex (λ c h. (codes "/", refl)) writer text (refl, omega arith)

text_is_unclean : all_clean text ≡ false
text_is_unclean = refl

json_string_of_clean : (json_string hex writer (97 ∷ 34 ∷ 10 ∷ [])).written ≡ codes "[]\"a\\\"\\n\""
unfolding json_string
json_string_of_clean = refl

read_clean_text : read_from plain (codes "a\\\"\\n\"") ≡ some (97 ∷ 34 ∷ 10 ∷ [], [])
read_clean_text = refl

-- The reader takes four digits.
read_four_digits : read_from plain (codes "\\u001f\"") ≡ some (31 ∷ [], [])
read_four_digits = refl

abbrev view : ℕ → TopView
view n = record {
  key = codes "/";
  hits = n;
  errors = 0;
  bytes = 0;
  latency_ms_total = 0;
  last_seen = 0;
}

abbrev views : List TopView
views = view 2 ∷ view 7 ∷ view 5 ∷ view 7 ∷ []

sort_top-Descending_example : Perm (sort_top views) views × Descending (sort_top views)
sort_top-Descending_example = sort_top-Descending views

sort_top-views : sort_top views ≡ view 7 ∷ view 7 ∷ view 5 ∷ view 2 ∷ []
unfolding sort_top
sort_top-views = refl

abbrev copied : List ℕ → List ℕ → ℕ → List ℕ
copied dst src n = src

send_documents-IsWhole_example :
    IsWhole nginx digits hex
      (has_views api_system (nginx.can_alloc 1) (nginx.can_alloc 2))
      524288
      (codes "application/json")
      (json_document ops scaled copied z zone
        (nginx.can_alloc 1)
        (nginx.can_alloc 2)
        process
        api_system)
      request
      (past (view_count api_system) exchange)
      (send_json ops scaled copied z nginx digits hex process api_system request exchange)
    × IsWhole nginx digits hex true 131072
        (codes "text/plain")
        (prometheus_document ops scaled zone)
        request
        (past 0 exchange)
        (send_prometheus ops scaled copied z nginx digits hex process request exchange)
    × IsWhole nginx digits hex true 4096
        (codes "application/json")
        (health_document process zone)
        request
        (past 0 exchange)
        (send_health ops scaled copied z nginx digits hex process request exchange)
send_documents-IsWhole_example =
    send_documents-IsWhole ops scaled copied z nginx digits hex process api_system request exchange
      zone refl refl

abbrev outside : Outside ℕ
outside = record {
  ops = ops;
  scaled = scaled;
  digits = digits;
  hex = hex;
  cpystrn = copied;
  html = codes "<html>";
  zero_sample = z;
  header_only = λ r rc. false;
}

health-ne-live : health ≢ live
health-ne-live e = cc

dispatch-zone_example :
    (dispatch nginx process
      (some main_conf)
      (senders outside nginx process (some main_conf))
      health
      request
      exchange).1.zone
    ≡ some zone
dispatch-zone_example =
    dispatch-zone outside nginx process (some main_conf) health request exchange health-ne-live
