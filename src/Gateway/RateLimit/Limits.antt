-- ===== src/Gateway/RateLimit/Limits.antt =====
-- Who is limited, by which numbers, and what a refusal looks like.
use ts_api_gateway.Common.{Bool-cases, ℕ, ◌≡◌, ◌⊎◌, inl, inr, true, false, some, arith, Text}
use ts_api_gateway.Gateway.{Env, CachedConfig, Request, too_many, Reply, path_of, is_internal}
use ts_api_gateway.Gateway.Auth.{policy_of}
use ts_api_gateway.Gateway.RateLimit.{
  rps_of, burst_of, client_of, retry_after, rate_limit_middleware,
}
use ts_api_gateway.RateLimiter.{RateLimitResult}
use ts_api_gateway.Router.{MatchResult, match_route}

module _ {W : Type 0} (check : Text → Text → ℕ → ℕ → W → RateLimitResult × W) (now : W → ℕ)
    (env : Env) (config : CachedConfig) (req : Request) (reply : Reply) (w : W)
    (m : MatchResult) where
  -- The limiter's answer for the matched route and the client.
  abbrev pub verdict : RateLimitResult × W
  verdict =
      check m.route.name (client_of req) (rps_of env (policy_of config m))
        (burst_of env (policy_of config m)) w

  -- With limiting on, a request for a public path that matches a route is refused exactly when the
  -- limiter says so: with 429, and sent. Otherwise nothing is sent. The world is the limiter's.
  pub rate_limit_middleware-verdict :
      env.rate_limit_enabled ≡ true
      → is_internal (path_of req.url) ≡ false
      → match_route (path_of req.url) config.routes ≡ some m
      → ((rate_limit_middleware check now env config req reply w).1 ≡ verdict.1)
        × (((verdict.0.allowed ≡ true)
              × ((rate_limit_middleware check now env config req reply w).0.sent ≡ reply.sent))
            ⊎ ((verdict.0.allowed ≡ false)
                × ((rate_limit_middleware check now env config req reply w).0.status_code ≡ 429)
                × ((rate_limit_middleware check now env config req reply w).0.sent
                    ≡ some
                        (too_many (retry_after verdict.0 (now verdict.1)) req.context.trace_id))))
  unfolding rate_limit_middleware
  rate_limit_middleware-verdict enabled public matched = elim (Bool-cases verdict.0.allowed) [
    | inl yes_it_is ↦ ground (arith, enabled, public, matched, yes_it_is)
    | inr refused ↦ ground (arith, enabled, public, matched, refused)
  ]
