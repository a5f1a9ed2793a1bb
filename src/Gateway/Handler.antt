-- ===== src/Gateway/Handler.antt =====
-- src/routes/proxy.routes.ts: the handler behind the hooks. The circuit breaker is a parameter: the
-- key of an upstream and the options of the request settle to an outcome over the state of the
-- world. So are the counters, the clock and the random source.
pub mod Answers
use ts_api_gateway.Common.{
  ◌==◌, if◌then◌else◌, take, drop, ℕ, ◌+◌, ◌-◌, Bool, false, not, ◌||◌, Option, none, some, List,
  [], ◌∷◌, ◌++◌, map, Text, codes, text_eq, includes, index_of, decimal, Dict,
}
use ts_api_gateway.Gateway.{
  Env, CachedConfig, Body, no_body, buffer, object, text, Request, bytes, failure, no_route, value,
  Reply, set_header, send,
}
use ts_api_gateway.Models.{Route}
use ts_api_gateway.Proxy.{
  Thrown, error, not_an_error, Outcome, resolved, thrown, HeaderValue, ProxyOptions, ProxyResult,
}
use ts_api_gateway.Proxy.Forward.{to_lower}
use ts_api_gateway.Proxy.Splitter.{stable, canary, UpstreamTarget, stable_target, select_upstream}
use ts_api_gateway.Router.{MatchResult, match_route}

pub record Backend (W : Type 0) : Type 0 where
  -- `getBreaker(host, port).fire(options)`
  pub fire : Text → ProxyOptions → W → Outcome ProxyResult × W
  -- `recordRequest(route, status, latency)`
  pub record_request : Text → ℕ → ℕ → W → W
  pub now : W → ℕ
  -- `Math.random() * 100`, as the traffic splitter takes it
  pub random : W → ℕ × W

-- `rawUrl.slice(0, qIdx)` and `rawUrl.slice(qIdx + 1)`
unfoldable pub raw_path : Text → Text
unfolding index_of
raw_path url = elim (index_of b'?' url) [ none ↦ url | some i ↦ take i url ]

unfoldable pub raw_query : Text → Text
unfolding index_of
raw_query url = elim (index_of b'?' url) [ none ↦ [] | some i ↦ drop (i + 1) url ]

-- `${host}:${port}`
abbrev pub upstream_key : Text → ℕ → Text
upstream_key host port = host ++ (codes ":" ++ decimal port)

abbrev pub body_of : Body → Option (List ℕ)
body_of no_body = none
body_of (buffer b) = some b
body_of (object b) = some b
body_of (text b) = some b

-- The route with the canary's address, if the canary is selected.
abbrev pub effective_route : Route → UpstreamTarget → Route
effective_route route upstream = elim upstream.variant [
  | canary ↦ record route { upstream_host = upstream.host; upstream_port = upstream.port }
  | stable ↦ route
]

abbrev pub breaker_is_open : Thrown → Bool
breaker_is_open not_an_error = false
breaker_is_open (error name message code) = includes message (codes "Breaker is open")

abbrev pub is_timeout : Thrown → Bool
is_timeout not_an_error = false
is_timeout (error name message code) =
    text_eq name (codes "TimeoutError")
    || (text_eq name (codes "AbortError")
        || (includes message (codes "UND_ERR_HEADERS_TIMEOUT")
            || includes message (codes "UND_ERR_BODY_TIMEOUT")))

-- The status that the counters get for an error, and the one that the client gets.
unfoldable pub metrics_code : Thrown → ℕ
metrics_code err = if breaker_is_open err then 503 else 502

unfoldable pub error_status : Thrown → ℕ
error_status err = if breaker_is_open err then 503 else if is_timeout err then 504 else 502

abbrev pub error_name : ℕ → Text
error_name status =
    if status == 503
    then codes "upstream_unavailable"
    else if status == 504
    then codes "upstream_timeout"
    else codes "upstream_error"

-- The upstream's headers, without `transfer-encoding`.
abbrev pub copy_headers : Dict HeaderValue → Reply → Reply
copy_headers [] reply = reply
copy_headers ((key, v) ∷ headers) reply = copy_headers headers (
    if text_eq (to_lower key) (codes "transfer-encoding")
    then reply
    else set_header key (value v) reply)

module _ {W : Type 0} (backend : Backend W) (env : Env) (config : CachedConfig) where
  options_for : Request → MatchResult → UpstreamTarget → ProxyOptions
  options_for req match upstream = record {
    route = effective_route match.route upstream;
    upstream_path = match.upstream_path;
    method = req.method;
    headers = map (λ h. (h.0, some h.1)) req.headers;
    body = body_of req.body;
    trace_id = req.context.trace_id;
    query_string = raw_query req.url;
    signal = none;
  }

  -- What follows the breaker.
  answer : Request → MatchResult → ℕ → Reply → Outcome ProxyResult → W → Reply × W
  answer req match start reply (resolved result) w = (
    send result.status_code (bytes result.body) (copy_headers result.headers reply),
    backend.record_request match.route.name result.status_code (backend.now w - start) w,
  )
  answer req match start reply (thrown err) w = (
    send (error_status err) (failure (error_name (error_status err)) req.context.trace_id) reply,
    backend.record_request match.route.name (metrics_code err) (backend.now w - start) w,
  )

  -- The stable upstream, or the splitter's choice.
  choose_upstream : Route → W → UpstreamTarget × W
  choose_upstream route w =
      if not env.feature_canary_releases
      then (stable_target route, w)
      else let (r, w') = backend.random w in (select_upstream r route, w')

  forward : Request → Reply → MatchResult → W → Reply × W
  forward req reply match w =
      let (upstream, w1) = choose_upstream match.route w in
      let (out, w2) =
        backend.fire (upstream_key upstream.host upstream.port) (options_for req match upstream)
          w1 in
      answer req match (backend.now w1) reply out w2

  unfoldable pub proxy_handler : Request → Reply → W → Reply × W
  unfolding forward choose_upstream options_for answer
  proxy_handler req reply w = elim (match_route (raw_path req.url) config.routes) [
    | none ↦ (send 404 (no_route (raw_path req.url) req.context.trace_id) reply, w)
    | some match ↦ forward req reply match w
  ]
