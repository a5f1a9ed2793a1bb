-- ===== src/Breakers/Flags.antt =====
-- What the metrics say of a breaker, and that there is one breaker for an upstream.
use ts_api_gateway.Breakers.{
  get_breaker, BreakerEvent, opens, closes, half_opens, fails_call, on_event, on_events,
}
use ts_api_gateway.Common.{
  if◌then◌else◌, Option-cases, ℕ, ◌≡◌, refl, ap, ◌∙◌, inl, inr, Bool, true, false, Option, some,
  List, [], ◌∷◌, arith, Text, text_eq, before, text_eq_iff, lookup, Dict, lookup-put,
  lookup-put_self,
}
use ts_api_gateway.Gateway.Handler.{upstream_key}
use ts_api_gateway.Metrics.{State, set_circuit_breaker_state, get_metrics}

-- Whether the last of the `open` and `close` events of a breaker was `open`.
abbrev pub last_flag : Text → List (Text × BreakerEvent) → Option Bool → Option Bool
last_flag key [] before = before
last_flag key ((k, opens) ∷ events) before =
    last_flag key events (if text_eq k key then some true else before)
last_flag key ((k, closes) ∷ events) before =
    last_flag key events (if text_eq k key then some false else before)
last_flag key ((k, half_opens) ∷ events) before = last_flag key events before
last_flag key ((k, fails_call err) ∷ events) before = last_flag key events before

-- After any events of any breakers, the metrics show for an upstream whether the last `open` or
-- `close` of its own breaker was `open`: a half-open circuit still counts as open, and events of
-- other breakers do not matter.
pub on_events-last_flag :
    (key : Text) (now : ℕ) (events : List (Text × BreakerEvent)) (state : State)
    → lookup key (get_metrics now (on_events events state)).circuit_breakers
      ≡ last_flag key events (lookup key state.circuit_breakers)
unfolding get_metrics on_events on_event set_circuit_breaker_state
on_events-last_flag key now [] state = refl
on_events-last_flag key now ((k, opens) ∷ events) state =
    on_events-last_flag key now events (on_event k opens state)
    ∙ ap (last_flag key events) (lookup-put k key true state.circuit_breakers)
on_events-last_flag key now ((k, closes) ∷ events) state =
    on_events-last_flag key now events (on_event k closes state)
    ∙ ap (last_flag key events) (lookup-put k key false state.circuit_breakers)
on_events-last_flag key now ((k, half_opens) ∷ events) state =
    on_events-last_flag key now events state
on_events-last_flag key now ((k, fails_call err) ∷ events) state =
    on_events-last_flag key now events state

module _ {B : Type 0} (create_breaker : Text → B) where
  -- The registry after a call has the breaker that the call returned under the upstream's key, a
  -- second call returns the same one and creates none, and the breakers of other keys are as before.
  pub get_breaker-keeps :
      (host : Text) (port : ℕ) (other_key : Text) (breakers : Dict B)
      → let (breaker, breakers') = get_breaker create_breaker host port breakers in
        (lookup (upstream_key host port) breakers' ≡ some breaker)
        × (get_breaker create_breaker host port breakers' ≡ (breaker, breakers'))
        × (lookup other_key breakers' ≡ (
            if text_eq (upstream_key host port) other_key
            then some breaker
            else lookup other_key breakers))
  unfolding get_breaker
  get_breaker-keeps host port other_key breakers =
      let key = upstream_key host port in
      elim (Option-cases (lookup key breakers)) [
        | inr (breaker, there) ↦ (
          ground (arith, there),
          ground (arith, there),
          ground (arith, there, text_eq_iff key other_key),
        )
        | inl absent ↦
            let made = create_breaker key in
            let self = lookup-put_self key made breakers in
            (
              ground (arith, absent, self),
              ground (arith, absent, self),
              ground (arith, absent, lookup-put key other_key made breakers),
            )
      ]
