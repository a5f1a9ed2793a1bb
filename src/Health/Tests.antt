-- ===== src/Health/Tests.antt =====
-- Probes of two routes with one upstream, and the theorems at concrete inputs.
use ts_api_gateway.Common.{
  All, ℕ, ◌≡◌, refl, Bool, true, false, Option, none, List, [], ◌∷◌, ◌++◌, Text, codes, decimal,
}
use ts_api_gateway.Health.{Probe, run_health_checks}
use ts_api_gateway.Health.Probes.{Distinct, logged, key_of, run_health_checks-Distinct}
use ts_api_gateway.Models.{Route}
use ts_api_gateway.Proxy.Retry.{member}

abbrev probed_route : Text → Route
probed_route name = record {
  id = name;
  name = name;
  path_prefix = codes "/" ++ name;
  upstream_host = codes "h";
  upstream_port = 80;
  strip_path = false;
  connect_timeout_ms = 200;
  request_timeout_ms = 2000;
  retries = 2;
  enabled = true;
  canary_upstream_host = none;
  canary_upstream_port = none;
  canary_weight = none;
  created_at = 0;
  updated_at = 0;
}

abbrev twins : List Route
twins = probed_route (codes "a") ∷ probed_route (codes "b") ∷ []

abbrev fails : Probe
fails = record { latency_ms = 3000; ok = false }

abbrev no_answer : Text → ℕ → Probe
no_answer host port = fails

abbrev no_breakers : Text → Option (Bool × Bool)
no_breakers key = none

probed_once :
    (run_health_checks (logged no_answer no_breakers) no_breakers twins [] []).1 ≡ codes "h:80" ∷ []
unfolding run_health_checks decimal
probed_once = refl

run_health_checks-Distinct_example :
    Distinct no_answer no_breakers
      (run_health_checks (logged no_answer no_breakers) no_breakers twins [] []).1
    × All
        (λ r.
          member
            (key_of no_answer no_breakers r)
            (run_health_checks (logged no_answer no_breakers) no_breakers twins [] []).1
          ≡ true)
        twins
run_health_checks-Distinct_example = run_health_checks-Distinct no_answer no_breakers twins []
