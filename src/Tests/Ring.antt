-- ===== src/Tests/Ring.antt =====
-- The history at concrete inputs.
use ngx_http_monitoring_modu.Prelude.{
  ℕ, ◌/◌, ◌*◌, ◌≡◌, ◌⊎◌, refl, true, false, List, [], ◌∷◌, arith, length-replicate, replicate, none,
  some,
}
use ngx_http_monitoring_modu.State.{ShCtx, HistorySample, history_max}
use ngx_http_monitoring_modu.State.Zero.{zero_sample}
use ngx_http_monitoring_modu.History.{
  DoubleOps, is_early, new_sample, average, collect_history, init_shm, json_history, capacity_for,
  resize,
}
use ngx_http_monitoring_modu.History.Laws.{IsRing}
use ngx_http_monitoring_modu.History.Samples.{Appends, collect_history-Appends}
use ngx_http_monitoring_modu.History.Start.{init_shm-IsRing, init_shm-resumes}
use ngx_http_monitoring_modu.Tests.{process, main_conf, zone}

abbrev pub ops : DoubleOps ℕ
ops = record { of_word = λ n. n; times = λ a b. a * b; over = λ a b. a / b }

abbrev zero_double : ℕ
zero_double = 0

abbrev pub scaled : ℕ → ℕ → ℕ
scaled total p = total * p / 100

abbrev pub z : HistorySample ℕ
z = zero_sample 0

abbrev pub ring : ShCtx ℕ
ring = record zone { history_capacity = 300 }

pub ring-IsRing : IsRing ring
ring-IsRing = record {
  size = length-replicate history_max z;
  capacity_pos = omega arith;
  capacity_le = omega arith;
  count_le = omega arith;
}

collect_history-Appends_example :
    (is_early ops scaled main_conf process ring ≡ true
      × collect_history ops scaled main_conf process ring ≡ ring)
    ⊎ (is_early ops scaled main_conf process ring ≡ false
        × Appends z ring
            (collect_history ops scaled main_conf process ring)
            (new_sample ops scaled main_conf process (average ops scaled main_conf process ring)))
collect_history-Appends_example =
    collect_history-Appends z ops scaled main_conf process ring ring-IsRing (omega arith)

init_shm-IsRing_example :
    ((sh' : ShCtx ℕ) × (init_shm zero_double main_conf (some zone) none true ≡ some sh')
      × IsRing sh')
    × ((sh' : ShCtx ℕ) × (init_shm zero_double main_conf none (some (some zone)) true ≡ some sh')
        × IsRing sh')
    × ((sh' : ShCtx ℕ) × (init_shm zero_double main_conf none none true ≡ some sh')
        × IsRing sh'
        × (json_history z sh' ≡ []))
    × (init_shm zero_double main_conf none (some none) true ≡ none)
    × (init_shm zero_double main_conf none none false ≡ none)
init_shm-IsRing_example =
    init_shm-IsRing main_conf zero_double z zone none true (length-replicate history_max z)

capacity_for-main_conf : 300 ≡ capacity_for main_conf
unfolding capacity_for
capacity_for-main_conf = refl

init_shm-resumes_example :
    (init_shm zero_double main_conf (some ring) none true ≡ some ring)
    × (init_shm zero_double main_conf none (some (some ring)) true ≡ some ring)
init_shm-resumes_example =
    init_shm-resumes main_conf zero_double z ring none true ring-IsRing capacity_for-main_conf

abbrev at : ℕ → HistorySample ℕ
at sec = record z { timestamp = sec }

abbrev seconds : List (HistorySample ℕ) → List ℕ
seconds [] = []
seconds (s ∷ samples) = s.timestamp ∷ seconds samples

-- A full ring of three, written four times.
abbrev wrapped : ShCtx ℕ
wrapped = record zone {
  history_capacity = 3;
  history_count = 3;
  history_write = 4;
  history = at 4 ∷ at 2 ∷ at 3 ∷ replicate 3597 z;
}

wrapped-json_history : seconds (json_history z wrapped) ≡ 2 ∷ 3 ∷ 4 ∷ []
unfolding json_history
wrapped-json_history = refl

-- A reload that asks for five samples: the latest one is lost, and a zeroed one stands in its place.
resized-json_history :
    seconds (json_history z (resize (record main_conf { history = 5000 }) wrapped)) ≡ 2 ∷ 3 ∷ 0 ∷ []
unfolding json_history resize
resized-json_history = refl
