-- ===== src/Health/Probes.antt =====
-- How often an upstream is probed, and what its entry counts.
use mathlib.Core.Path.{subst}
use ts_api_gateway.Common.{
  leb, if◌then◌else◌, Bool-cases, or_default, length, All, ℕ, ◌+◌, ◌≡◌, sym, ◌∙◌, inl, inr, Bool,
  true, false, Option, List, [], ◌∷◌, arith, Text, text_eq_iff, lookup, put, Dict,
}
use ts_api_gateway.Gateway.Handler.{upstream_key}
use ts_api_gateway.Health.{
  degraded, unhealthy, UpstreamHealth, Probe, status_from_probe, unseen, entry_after,
  run_health_checks, run_from,
}
use ts_api_gateway.Models.{Route}
use ts_api_gateway.Proxy.Retry.{member}

-- Consecutive probes of one upstream, from what was known before.
abbrev pub after_probes : Text → Option (Bool × Bool) → List Probe → UpstreamHealth → UpstreamHealth
after_probes key breaker [] health = health
after_probes key breaker (p ∷ ps) health =
    after_probes key breaker ps (entry_after key health p breaker)

failures_from :
    (key : Text) (breaker : Option (Bool × Bool)) (ps : List Probe) (health : UpstreamHealth)
    → All (λ p. p.ok ≡ false) ps
    → (after_probes key breaker ps health).consecutive_failures
      ≡ health.consecutive_failures + length ps
unfolding entry_after
failures_from key breaker [] health h = omega arith
failures_from key breaker (p ∷ ps) health h =
    failures_from key breaker ps (entry_after key health p breaker) h.1 ∙ ground (arith, h.0)

-- From no failures on, failed probes in a row make an upstream degraded, and unhealthy from the
-- third on.
pub after_probes-status :
    (key : Text) (breaker : Option (Bool × Bool)) (ps : List Probe) (p : Probe)
    (health : UpstreamHealth)
    → health.consecutive_failures ≡ 0
    → All (λ q. q.ok ≡ false) ps
    → p.ok ≡ false
    → (entry_after key (after_probes key breaker ps health) p breaker).status
      ≡ (if leb 3 (length ps + 1) then unhealthy else degraded)
unfolding entry_after status_from_probe
after_probes-status key breaker ps p health none_yet h failed =
    ground (arith, failures_from key breaker ps health h, none_yet, failed)

-- A world that keeps the upstreams that were probed.
module _ (answer : Text → ℕ → Probe) (breakers : Text → Option (Bool × Bool)) where
  abbrev pub logged : Text → ℕ → List Text → Probe × List Text
  logged host port w = (answer host port, upstream_key host port ∷ w)

  -- No key stands twice in the list.
  abbrev pub Distinct : List Text → Type 0
  Distinct [] = Unit
  Distinct (k ∷ ks) = (member k ks ≡ false) × Distinct ks

  abbrev pub key_of : Route → Text
  key_of route = upstream_key route.upstream_host route.upstream_port

  -- Every upstream is in the log once, and those of `seen` and of the routes are in it.
  record Covered (routes : List Route) (seen log : List Text) : Type 0 where
    distinct : Distinct log
    kept : (k : Text) → member k seen ≡ true → member k log ≡ true
    reached : All (λ r. member (key_of r) log ≡ true) routes

  -- The log after the loop, which starts with the keys that were checked.
  abbrev log_of : List Route → List Text → Dict UpstreamHealth → List Text
  log_of routes checked health = (run_from logged breakers routes checked health checked).1

  step_known :
      (r : Route) (rs : List Route) (checked : List Text) (health : Dict UpstreamHealth)
      → member (key_of r) checked ≡ true
      → log_of (r ∷ rs) checked health ≡ log_of rs checked health
  unfolding run_from
  step_known r rs checked health e = ground (arith, e)

  step_new :
      (r : Route) (rs : List Route) (checked : List Text) (health : Dict UpstreamHealth)
      → member (key_of r) checked ≡ false
      → (health' : Dict UpstreamHealth) × (log_of (r ∷ rs) checked health
          ≡ log_of rs (key_of r ∷ checked) health')
  unfolding run_from
  step_new r rs checked health e =
      let key = key_of r in
      (
        put key
            (entry_after key (or_default (lookup key health) (unseen key))
              (answer r.upstream_host r.upstream_port) (breakers key))
            health,
        ground (arith, e),
      )

  member-cons_self : (k : Text) (ks : List Text) → member k (k ∷ ks) ≡ true
  unfolding member
  member-cons_self k ks = ground (arith, text_eq_iff k k)

  member-cons : (k j : Text) (ks : List Text) → member k ks ≡ true → member k (j ∷ ks) ≡ true
  unfolding member
  member-cons k j ks h = ground (arith, h)

  run_from-Covered :
      (routes : List Route) (checked : List Text) (health : Dict UpstreamHealth)
      → Distinct checked
      → Covered routes checked (log_of routes checked health)
  run_from-Covered [] checked health h = record {
    distinct = unfold run_from in h;
    kept = λ k m. unfold run_from in m;
    reached = tt;
  }
  run_from-Covered (r ∷ rs) checked health h = elim (Bool-cases (member (key_of r) checked)) [
    | inl known ↦
        let rest = run_from-Covered rs checked health h in
        subst (Covered (r ∷ rs) checked) (sym (step_known r rs checked health known)) (record {
          distinct = rest.distinct;
          kept = rest.kept;
          reached = (rest.kept (key_of r) known, rest.reached);
        })
    | inr unmet ↦
        let (health', step) = step_new r rs checked health unmet in
        let rest = run_from-Covered rs (key_of r ∷ checked) health' (unmet, h) in
        subst (Covered (r ∷ rs) checked) (sym step) (record {
          distinct = rest.distinct;
          kept = λ k m. rest.kept k (member-cons k (key_of r) checked m);
          reached = (rest.kept (key_of r) (member-cons_self (key_of r) checked), rest.reached);
        })
  ]

  -- One pass probes the upstream of every route, and none of them twice.
  pub run_health_checks-Distinct :
      (routes : List Route) (health : Dict UpstreamHealth)
      → Distinct (run_health_checks logged breakers routes health []).1
        × All
            (λ r. member (key_of r) (run_health_checks logged breakers routes health []).1 ≡ true)
            routes
  unfolding run_health_checks
  run_health_checks-Distinct routes health =
      let covered = run_from-Covered routes [] health tt in (covered.distinct, covered.reached)
