-- ===== src/Metrics.antt =====
-- src/services/metrics/metrics.service.ts: the counters of the process. A latency is a difference
-- of two readings of the clock in milliseconds. The histogram is a list of bounds with their
-- counts, where the code has an object with the keys `le_5ms`, `le_10ms` and so on.
pub mod History
pub mod Percentile
mod Tests
use ts_api_gateway.Common.{
  ltb, leb, if◌then◌else◌, length, drop, ℕ, zero, suc, ◌+◌, ◌-◌, ◌*◌, ◌/◌, Bool, Option, none, some,
  List, [], ◌∷◌, ◌++◌, map, Text, codes, text_eq, decimal, lookup, put, Dict,
}

abbrev pub latency_buckets_ms : List ℕ
latency_buckets_ms = 5 ∷ 10 ∷ 25 ∷ 50 ∷ 100 ∷ 250 ∷ 500 ∷ 1000 ∷ 2500 ∷ 5000 ∷ []

-- What `counts[key]` may hold: a number, or the text that `+ 1` makes of what a plain object inherits.
pub data Count : Type 0 where
  counted : ℕ → Count
  joined : Text → Count

pub record RequestCounters : Type 0 where
  pub total : ℕ
  pub by_status_class : Dict Count
  pub by_route : Dict Count

pub record LatencyHistogram : Type 0 where
  pub count : ℕ
  pub sum : ℕ
  pub buckets : List (ℕ × ℕ)

pub record State : Type 0 where
  pub started_at : ℕ
  pub requests : RequestCounters
  pub latency : LatencyHistogram
  pub circuit_breakers : Dict Bool
  pub latency_samples : List ℕ

abbrev pub build_empty_histogram : LatencyHistogram
build_empty_histogram = record {
  count = 0;
  sum = 0;
  buckets = map (λ b. (b, 0)) latency_buckets_ms;
}

abbrev pub init : ℕ → State
init now = record {
  started_at = now;
  requests = record { total = 0; by_status_class = []; by_route = [] };
  latency = build_empty_histogram;
  circuit_breakers = [];
  latency_samples = [];
}

abbrev pub status_class : ℕ → Text
status_class status_code = decimal (status_code / 100) ++ codes "xx"

-- The members of Object.prototype as texts, by their names.
abbrev pub Inherited : Type 0
Inherited = Text → Option Text

abbrev proto_key : Text
proto_key = codes "__proto__"

-- `counts[key]`
abbrev read_count : Inherited → Text → Dict Count → Option Count
read_count inherited key counts = elim (lookup key counts) [
  | some c ↦ some c
  | none ↦ elim (inherited key) [ none ↦ none | some member ↦ some (joined member) ]
]

-- `(... ?? 0) + 1`
abbrev pub plus_one : Option Count → Count
plus_one none = counted 1
plus_one (some (counted n)) = counted (n + 1)
plus_one (some (joined s)) = joined (s ++ codes "1")

-- `counts[key] = (counts[key] ?? 0) + 1` on a plain object; an assignment of a number or a text to
-- `__proto__` does nothing.
unfoldable pub increment : Inherited → Text → Dict Count → Dict Count
unfolding put lookup text_eq
increment inherited key counts =
    if text_eq key proto_key
    then counts
    else put key (plus_one (read_count inherited key counts)) counts

-- The loop over the buckets.
abbrev pub fill_buckets : ℕ → List (ℕ × ℕ) → List (ℕ × ℕ)
fill_buckets latency_ms [] = []
fill_buckets latency_ms ((b, n) ∷ bs) =
    (b, if leb latency_ms b then n + 1 else n) ∷ fill_buckets latency_ms bs

-- `push`, and `shift` beyond a thousand samples.
abbrev pub add_sample : ℕ → List ℕ → List ℕ
add_sample latency_ms samples =
    let pushed = samples ++ (latency_ms ∷ []) in
    if ltb 1000 (length pushed) then drop 1 pushed else pushed

unfoldable pub record_request : Inherited → Text → ℕ → ℕ → State → State
unfolding increment decimal
record_request inherited route status_code latency_ms state = record state {
  requests = record {
    total = state.requests.total + 1;
    by_status_class = increment inherited (status_class status_code) state.requests.by_status_class;
    by_route = increment inherited route state.requests.by_route;
  };
  latency = record {
    count = state.latency.count + 1;
    sum = state.latency.sum + latency_ms;
    buckets = fill_buckets latency_ms state.latency.buckets;
  };
  latency_samples = add_sample latency_ms state.latency_samples;
}

unfoldable pub set_circuit_breaker_state : Text → Bool → State → State
unfolding put
set_circuit_breaker_state upstream is_open state = record state {
  circuit_breakers = put upstream is_open state.circuit_breakers;
}

abbrev pub reset_metrics : State → State
reset_metrics state = record state {
  requests = record { total = 0; by_status_class = []; by_route = [] };
  latency = build_empty_histogram;
  latency_samples = [];
}

-- `[...samples].sort((a, b) => a - b)`
unfoldable pub insert_sorted : ℕ → List ℕ → List ℕ
insert_sorted x [] = x ∷ []
insert_sorted x (y ∷ ys) = if leb x y then x ∷ (y ∷ ys) else y ∷ insert_sorted x ys

unfoldable pub sort : List ℕ → List ℕ
unfolding insert_sorted
sort [] = []
sort (x ∷ xs) = insert_sorted x (sort xs)

abbrev pub get_elem? {ℓ} : {A : Type ℓ} → List A → ℕ → Option A
get_elem? [] i = none
get_elem? (x ∷ xs) zero = some x
get_elem? (x ∷ xs) (suc i) = get_elem? xs i

-- `Math.ceil((p / 100) * n) - 1`, at least 0; `none` is `undefined`. The floating-point product has
-- the exact ceiling for the three values of `p` that the code uses and up to 1000 samples.
unfoldable pub percentile : ℕ → List ℕ → Option ℕ
percentile p sorted = get_elem? sorted ((p * length sorted + 99) / 100 - 1)

pub record Snapshot : Type 0 where
  pub uptime_seconds : ℕ
  pub requests : RequestCounters
  -- In hundredths: `Math.round((sum / count) * 100)`.
  pub avg_hundredths : ℕ
  pub p50 : Option ℕ
  pub p95 : Option ℕ
  pub p99 : Option ℕ
  pub count : ℕ
  pub histogram : List (ℕ × ℕ)
  pub circuit_breakers : Dict Bool

unfoldable pub get_metrics : ℕ → State → Snapshot
unfolding sort percentile
get_metrics now state =
    let sorted = sort state.latency_samples in
    record {
      uptime_seconds = (now - state.started_at) / 1000;
      requests = state.requests;
      avg_hundredths =
          if ltb 0 state.latency.count
          then (200 * state.latency.sum + state.latency.count) / (2 * state.latency.count)
          else 0;
      p50 = percentile 50 sorted;
      p95 = percentile 95 sorted;
      p99 = percentile 99 sorted;
      count = state.latency.count;
      histogram = state.latency.buckets;
      circuit_breakers = state.circuit_breakers;
    }
