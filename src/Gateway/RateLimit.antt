-- ===== src/Gateway/RateLimit.antt =====
-- src/middlewares/rate-limit.middleware.ts. The limiter is a parameter: given the route's name, the
-- client, the rate and the burst it answers over the state of Redis and of the clock.
pub mod Limits
use ts_api_gateway.Common.{
  if◌then◌else◌, or_default, ℕ, ◌+◌, ◌-◌, ◌/◌, not, ◌||◌, Option, none, some, Text, codes,
}
use ts_api_gateway.Gateway.{
  Env, CachedConfig, Request, too_many, number, Reply, set_header, send, path_of, is_internal,
}
use ts_api_gateway.Gateway.Auth.{policy_of}
use ts_api_gateway.Models.{Policy}
use ts_api_gateway.RateLimiter.{RateLimitResult}
use ts_api_gateway.Router.{match_route}

-- `policy?.rateLimitRps ?? env.RATE_LIMIT_DEFAULT_RPS`
abbrev pub rps_of : Env → Option Policy → ℕ
rps_of env none = env.rate_limit_default_rps
rps_of env (some policy) = or_default policy.rate_limit_rps env.rate_limit_default_rps

-- `policy?.rateLimitBurst ?? env.RATE_LIMIT_DEFAULT_BURST`
abbrev pub burst_of : Env → Option Policy → ℕ
burst_of env none = env.rate_limit_default_burst
burst_of env (some policy) = or_default policy.rate_limit_burst env.rate_limit_default_burst

-- `userId ?? req.ip ?? 'unknown'`
abbrev pub client_of : Request → Text
client_of req = or_default req.context.user_id (or_default req.ip (codes "unknown"))

abbrev pub with_limit_headers : RateLimitResult → Reply → Reply
with_limit_headers result reply =
    set_header (codes "X-RateLimit-Reset") (number result.reset_at_ms) (
      set_header (codes "X-RateLimit-Remaining") (number result.remaining)
        (set_header (codes "X-RateLimit-Limit") (number result.limit) reply))

-- `Math.ceil((resetAtMs - now) / 1000)`; the reset lies ahead of the clock.
abbrev pub retry_after : RateLimitResult → ℕ → ℕ
retry_after result now = (result.reset_at_ms - now + 999) / 1000

abbrev pub too_many_requests : RateLimitResult → ℕ → Request → Reply → Reply
too_many_requests result now req reply =
    send 429 (too_many (retry_after result now) req.context.trace_id)
      (set_header (codes "Retry-After") (number (retry_after result now)) reply)

module _ {W : Type 0} (check : Text → Text → ℕ → ℕ → W → RateLimitResult × W) (now : W → ℕ)
    (env : Env) (config : CachedConfig) where
  unfoldable pub rate_limit_middleware : Request → Reply → W → Reply × W
  rate_limit_middleware req reply w =
      let path = path_of req.url in
      if not env.rate_limit_enabled || is_internal path
      then (reply, w)
      else elim (match_route path config.routes) [
        | none ↦ (reply, w)
        | some match ↦
            let policy = policy_of config match in
            let (result, w') =
              check match.route.name (client_of req) (rps_of env policy) (burst_of env policy) w in
            let limited = with_limit_headers result reply in
            if result.allowed
            then (limited, w')
            else (too_many_requests result (now w') req limited, w')
      ]
