-- ===== src/Breakers.antt =====
-- src/services/proxy/circuit-breaker.ts: the registry of breakers, and what their events do to the
-- metrics. A breaker of opossum and its construction are parameters; which events it emits is
-- opossum's own state machine.
pub mod Flags
mod Tests
use ts_api_gateway.Common.{ℕ, true, false, none, some, List, [], ◌∷◌, Text, lookup, put, Dict}
use ts_api_gateway.Gateway.Handler.{upstream_key}
use ts_api_gateway.Metrics.{State, set_circuit_breaker_state}
use ts_api_gateway.Proxy.{Thrown}

-- `breakers.get(key)!` behind the lazy creation. `create_breaker` is the constructor of opossum with
-- the options of createBreaker.
module _ {B : Type 0} (create_breaker : Text → B) where
  unfoldable pub get_breaker : Text → ℕ → Dict B → B × Dict B
  unfolding lookup put
  get_breaker host port breakers =
      let key = upstream_key host port in
      elim (lookup key breakers) [
        | some breaker ↦ (breaker, breakers)
        | none ↦ (create_breaker key, put key (create_breaker key) breakers)
      ]

-- The events that createBreaker listens to.
pub data BreakerEvent : Type 0 where
  opens closes half_opens : BreakerEvent
  fails_call : Thrown → BreakerEvent

-- The listeners; two of them only log.
unfoldable pub on_event : Text → BreakerEvent → State → State
unfolding set_circuit_breaker_state
on_event key opens state = set_circuit_breaker_state key true state
on_event key closes state = set_circuit_breaker_state key false state
on_event key half_opens state = state
on_event key (fails_call err) state = state

-- The events of all breakers, in the order in which they are emitted.
unfoldable pub on_events : List (Text × BreakerEvent) → State → State
unfolding on_event
on_events [] state = state
on_events ((key, event) ∷ events) state = on_events events (on_event key event state)
