-- ===== src/Proxy/Retry.antt =====
-- src/services/proxy/retry-policy.ts and upstream-client.ts: the retry loop around an attempt.
-- `fn` and `onRetry` act on a state of the caller's, which stands for the world that they change.
pub mod Stops
use ts_api_gateway.Common.{
  leb, ◌==◌, if◌then◌else◌, or_default, ℕ, zero, suc, ◌+◌, Bool, true, false, not, ◌||◌, Option,
  none, some, List, [], ◌∷◌, Text, codes, text_eq,
}
use ts_api_gateway.Proxy.{
  Thrown, error, not_an_error, Outcome, resolved, thrown, ProxyOptions, ProxyResult,
}

abbrev pub retryable_codes : List Text
retryable_codes =
    codes "ECONNREFUSED"
    ∷ codes "ECONNRESET"
    ∷ codes "ETIMEDOUT"
    ∷ codes "EPIPE"
    ∷ codes "ENOTFOUND"
    ∷ codes "UND_ERR_CONNECT_TIMEOUT"
    ∷ codes "UND_ERR_HEADERS_TIMEOUT"
    ∷ codes "UND_ERR_BODY_TIMEOUT"
    ∷ codes "UND_ERR_SOCKET"
    ∷ []

-- `set.has(s)`
unfoldable pub member : Text → List Text → Bool
member s [] = false
member s (t ∷ ts) = text_eq t s || member s ts

unfoldable pub is_retryable_error : Thrown → Bool
unfolding member text_eq
is_retryable_error not_an_error = false
is_retryable_error (error name message code) =
    if text_eq name (codes "TimeoutError") || text_eq name (codes "AbortError")
    then true
    else member (or_default code []) retryable_codes

unfoldable pub is_retryable_status : ℕ → Bool
is_retryable_status status_code = leb 500 status_code

-- The error behind the loop.
abbrev exhausted : Thrown
exhausted = error (codes "Error") (codes "executeWithRetry: exhausted without result") none

module _ {W T : Type 0} (fn : W → Outcome T × W) (should_retry_on_result : T → Bool)
    (on_retry : ℕ → Option Thrown → W → W) (max_retries : ℕ) where
  -- The loop, with the rounds left and the number of the attempt.
  attempt_from : ℕ → ℕ → W → Outcome T × W
  attempt_from zero attempt w = (thrown exhausted, w)
  attempt_from (suc rounds) attempt w =
      let (out, w') = fn w in
      elim out [
        | resolved result ↦ elim (not (should_retry_on_result result) || attempt == max_retries) [
          | true ↦ (resolved result, w')
          | false ↦ attempt_from rounds (attempt + 1) (on_retry (attempt + 1) none w')
        ]
        | thrown err ↦ elim (not (is_retryable_error err) || attempt == max_retries) [
          | true ↦ (thrown err, w')
          | false ↦ attempt_from rounds (attempt + 1) (on_retry (attempt + 1) (some err) w')
        ]
      ]

  unfoldable pub execute_with_retry : W → Outcome T × W
  unfolding attempt_from
  execute_with_retry w = attempt_from (max_retries + 1) 0 w

-- Every attempt gets a fresh signal with the route's request timeout.
unfoldable pub upstream_request :
    {W : Type 0}
    → (ProxyOptions → W → Outcome ProxyResult × W)
    → (ℕ → Option Thrown → W → W)
    → ProxyOptions
    → W
    → Outcome ProxyResult × W
unfolding execute_with_retry is_retryable_status
upstream_request proxy_request log_retry options =
    execute_with_retry
      (proxy_request (record options { signal = some options.route.request_timeout_ms }))
      (λ result. is_retryable_status result.status_code) log_retry options.route.retries
