-- ===== src/Metrics/Tests.antt =====
-- Runs of the counters, and the theorems at concrete inputs.
use mathlib.Core.List.{foldl}
use ts_api_gateway.Common.{
  leb, if◌then◌else◌, length, tally, All, ℕ, ◌+◌, ◌*◌, ◌≤◌, ◌<◌, ◌≡◌, refl, none, some, List, [],
  ◌∷◌, arith, codes, text_eq, decimal,
}
use ts_api_gateway.Metrics.{
  counted, joined, State, init, Inherited, record_request, reset_metrics, sort, percentile,
  get_metrics,
}
use ts_api_gateway.Metrics.History.{Sample, note, HasPlainKeys, Counts, record_request-Counts}
use ts_api_gateway.Metrics.Percentile.{percentile-rank}

abbrev requests : List Sample
requests =
    record { route = codes "orders"; status_code = 200; latency_ms = 12 }
    ∷ record { route = codes "orders"; status_code = 502; latency_ms = 700 }
    ∷ record { route = codes "users"; status_code = 204; latency_ms = 3 }
    ∷ []

-- One of the members that every object inherits.
abbrev of_object : Inherited
of_object key =
    if text_eq key (codes "constructor") then some (codes "function Object() { }") else none

abbrev recorded : State
recorded = foldl (note of_object) (init 0) requests

program : Unit {0}
unfolding record_request get_metrics
program = tt

snapshot_totals :
    ((get_metrics 9000 recorded).requests.total ≡ 3)
    × ((get_metrics 9000 recorded).requests.by_status_class
        ≡ (codes "2xx", counted 2) ∷ (codes "5xx", counted 1) ∷ [])
    × ((get_metrics 9000 recorded).p50 ≡ some 12)
    × ((get_metrics 9000 recorded).p99 ≡ some 700)
    × ((get_metrics 9000 recorded).avg_hundredths ≡ 23833)
    × ((get_metrics 9000 recorded).uptime_seconds ≡ 9)
unfolding program text_eq
snapshot_totals = (refl, refl, refl, refl, refl, refl)

-- A route of the name "constructor" is not counted by a number.
wrong_count :
    (record_request of_object (codes "constructor") 200 5 (init 0)).requests.by_route
    ≡ (codes "constructor", joined (codes "function Object() { }1")) ∷ []
unfolding record_request text_eq
wrong_count = refl

plain_keys : All (HasPlainKeys of_object) requests
unfolding text_eq decimal
plain_keys = (
  ((refl, refl), (refl, refl)),
  (((refl, refl), (refl, refl)), (((refl, refl), (refl, refl)), tt)),
)

record_request-Counts_example :
    Counts requests (foldl (note of_object) (reset_metrics (init 0)) requests)
record_request-Counts_example = record_request-Counts of_object requests (init 0) plain_keys

abbrev latencies : List ℕ
latencies = 12 ∷ 700 ∷ 3 ∷ []

percentile-rank_example :
    (v : ℕ) × (percentile 95 (sort latencies) ≡ some v)
    × (95 * length latencies ≤ 100 * tally (λ x. leb x v) latencies)
    × (100 * length latencies < 95 * length latencies + 100 * tally (λ x. leb v x) latencies)
percentile-rank_example = percentile-rank 95 latencies (omega arith) (omega arith) (omega arith)
