-- ===== src/Proxy/Tests.antt =====
-- Runs of the retry loop, the splitter and the headers, and the theorems at concrete inputs.
use ts_api_gateway.Common.{
  if◌then◌else◌, ℕ, zero, suc, ◌+◌, ◌*◌, ◌≤◌, ◌≡◌, refl, true, false, none, some, [], ◌∷◌, arith,
  codes, text_eq, lookup,
}
use ts_api_gateway.Models.{Route}
use ts_api_gateway.Proxy.{Thrown, error, Outcome, resolved, thrown, one, ProxyOptions}
use ts_api_gateway.Proxy.Forward.{forward_headers, request_url}
use ts_api_gateway.Proxy.Forward.Headers.{last_value, is_hop_by_hop, lookup-forward_headers}
use ts_api_gateway.Proxy.Retry.{is_retryable_error, is_retryable_status, execute_with_retry}
use ts_api_gateway.Proxy.Retry.Stops.{
  note, fresh, scripted, IsStop, reports, execute_with_retry-stops,
}
use ts_api_gateway.Proxy.Splitter.{grain, canary, stable_target, picks_canary, select_upstream}
use ts_api_gateway.Proxy.Splitter.Share.{Doubles, weight_of, canary_count, canary_count-share}

abbrev timed_out : Thrown
timed_out = error (codes "TimeoutError") (codes "The operation was aborted due to timeout") none

-- A time-out, a 503, and then a 200.
abbrev script : ℕ → Outcome ℕ
script zero = thrown timed_out
script (suc zero) = resolved 503
script (suc (suc n)) = resolved 200

third_attempt :
    execute_with_retry
      (scripted script is_retryable_status)
      is_retryable_status
      (note script is_retryable_status)
      2
      fresh
    ≡ (resolved 200, record { calls = 3; notices = (1, some timed_out) ∷ (2, none) ∷ [] })
unfolding execute_with_retry is_retryable_status is_retryable_error text_eq
third_attempt = refl

execute_with_retry-stops_example :
    (s : ℕ) × IsStop script is_retryable_status 2 s
    × (execute_with_retry
          (scripted script is_retryable_status)
          is_retryable_status
          (note script is_retryable_status)
          2
          fresh
        ≡ (script s, record { calls = s + 1; notices = reports script is_retryable_status s }))
execute_with_retry-stops_example = execute_with_retry-stops script is_retryable_status 2

abbrev split_route : Route
split_route = record {
  id = codes "r1";
  name = codes "orders";
  path_prefix = codes "/v1/orders";
  upstream_host = codes "stable";
  upstream_port = 3000;
  strip_path = false;
  connect_timeout_ms = 200;
  request_timeout_ms = 2000;
  retries = 2;
  enabled = true;
  canary_upstream_host = some (codes "canary");
  canary_upstream_port = some 3001;
  canary_weight = some 10;
  created_at = 0;
  updated_at = 0;
}

tenth_of_traffic :
    ((select_upstream 0 split_route).variant ≡ canary)
    × (select_upstream (50 * grain) split_route ≡ stable_target split_route)
unfolding select_upstream picks_canary
tenth_of_traffic = (refl, refl)

-- Products that need no rounding.
abbrev exact : Doubles
exact = record { times_100 = λ k. 100 * k; low = λ k lt. omega arith; high = λ k lt. omega arith }

canary_count-share_example :
    (weight_of split_route * grain ≤ 100 * canary_count exact split_route grain + 64)
    × (100 * canary_count exact split_route grain ≤ weight_of split_route * grain + 163)
canary_count-share_example = canary_count-share exact split_route refl refl (omega arith)

abbrev sample_options : ProxyOptions
sample_options = record {
  route = split_route;
  upstream_path = codes "/v1/orders/7";
  method = codes "GET";
  headers =
      (codes "Host", some (one (codes "gateway")))
      ∷ (codes "accept", some (one (codes "text/plain")))
      ∷ [];
  body = none;
  trace_id = codes "trace-1";
  query_string = codes "page=2";
  signal = some 2000;
}

sent_to_upstream :
    (request_url sample_options ≡ codes "http://stable:3000/v1/orders/7?page=2")
    × (lookup (codes "Host") (forward_headers sample_options) ≡ none)
    × (lookup (codes "accept") (forward_headers sample_options) ≡ some (one (codes "text/plain")))
unfolding request_url forward_headers lookup text_eq
sent_to_upstream = (refl, refl, refl)

lookup-forward_headers_example : lookup (codes "Host") (forward_headers sample_options) ≡ (
    if text_eq (codes "x-forwarded-by") (codes "Host")
    then some (one (codes "ts-api-gateway"))
    else if text_eq (codes "x-request-id") (codes "Host")
    then some (one (codes "trace-1"))
    else if is_hop_by_hop (codes "Host")
    then none
    else last_value (codes "Host") sample_options.headers none)
lookup-forward_headers_example = lookup-forward_headers sample_options (codes "Host")
