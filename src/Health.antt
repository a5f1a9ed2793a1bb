-- ===== src/Health.antt =====
-- src/services/health/upstream-health.service.ts: the probes of the upstreams and the map of their
-- health. The probe and the breakers are parameters over a state that stands for the network; the
-- time stamp of an entry is left out.
pub mod Probes
pub mod Endpoints
mod Tests
use ts_api_gateway.Common.{
  ltb, leb, if◌then◌else◌, or_default, ℕ, ◌+◌, Bool, true, false, not, Option, none, some, List, [],
  ◌∷◌, Text, text_eq, lookup, put, Dict,
}
use ts_api_gateway.Gateway.Handler.{upstream_key}
use ts_api_gateway.Models.{Route}
use ts_api_gateway.Proxy.Retry.{member}

pub data UpstreamStatus : Type 0 where
  healthy degraded unhealthy unknown : UpstreamStatus

pub data BreakerState : Type 0 where
  open_circuit half_open_circuit closed_circuit : BreakerState

pub record UpstreamHealth : Type 0 where
  pub upstream : Text
  pub status : UpstreamStatus
  pub latency_ms : Option ℕ
  pub consecutive_failures : ℕ
  pub circuit_breaker : BreakerState

-- A probe's latency, and whether a reply came.
pub record Probe : Type 0 where
  pub latency_ms : ℕ
  pub ok : Bool

unfoldable pub status_from_probe : Bool → ℕ → ℕ → UpstreamStatus
status_from_probe ok latency_ms consecutive =
    if not ok
    then if leb 3 consecutive then unhealthy else degraded
    else if ltb 2000 latency_ms
    then degraded
    else healthy

-- What is known of an upstream before its first probe.
abbrev pub unseen : Text → UpstreamHealth
unseen key = record {
  upstream = key;
  status = unknown;
  latency_ms = none;
  consecutive_failures = 0;
  circuit_breaker = closed_circuit;
}

-- `breaker?.opened` and `breaker?.halfOpen`; the second test wins.
abbrev pub breaker_state : Option (Bool × Bool) → BreakerState
breaker_state none = closed_circuit
breaker_state (some (opened, half_open)) =
    if half_open then half_open_circuit else if opened then open_circuit else closed_circuit

-- The entry after a probe.
unfoldable pub entry_after : Text → UpstreamHealth → Probe → Option (Bool × Bool) → UpstreamHealth
unfolding status_from_probe
entry_after key existing probe breaker =
    let consecutive = if probe.ok then 0 else existing.consecutive_failures + 1 in
    record {
      upstream = key;
      status = status_from_probe probe.ok probe.latency_ms consecutive;
      latency_ms = some probe.latency_ms;
      consecutive_failures = consecutive;
      circuit_breaker = breaker_state breaker;
    }

module _ {W : Type 0} (probe : Text → ℕ → W → Probe × W)
    (breakers : Text → Option (Bool × Bool)) where
  -- The loop over the routes, with the keys that were checked.
  run_from : List Route → List Text → Dict UpstreamHealth → W → Dict UpstreamHealth × W
  run_from [] checked health w = (health, w)
  run_from (route ∷ routes) checked health w =
      let key = upstream_key route.upstream_host route.upstream_port in
      elim (member key checked) [
        | true ↦ run_from routes checked health w
        | false ↦
            let existing = or_default (lookup key health) (unseen key) in
            let (result, w') = probe route.upstream_host route.upstream_port w in
            run_from routes (key ∷ checked)
              (put key (entry_after key existing result (breakers key)) health) w'
      ]

  unfoldable pub run_health_checks : List Route → Dict UpstreamHealth → W → Dict UpstreamHealth × W
  unfolding run_from member lookup put text_eq
  run_health_checks routes health w = run_from routes [] health w
