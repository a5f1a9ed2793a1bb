-- ===== src/Settings.antt =====
-- src/config/env.ts: the environment variables, checked and converted when the process starts.
pub mod Startup
mod Tests
use ts_api_gateway.Common.{
  leb, if◌then◌else◌, length, ℕ, Bool, false, ◌||◌, Option, none, some, List, [], ◌∷◌, Text, codes,
  text_eq, lookup, Dict, ◌>>=◌,
}

-- `z.infer<typeof envSchema>`, with `none` for a variable that may be missing.
pub record ParsedEnv : Type 0 where
  pub node_env : Text
  pub port : ℕ
  pub log_level : Text
  pub database_url : Text
  pub redis_url : Text
  pub jwks_uri : Option Text
  pub jwt_audience : Text
  pub jwt_issuer : Option Text
  pub jwks_cache_ttl_seconds : ℕ
  pub rate_limit_enabled : Bool
  pub rate_limit_default_rps : ℕ
  pub rate_limit_default_burst : ℕ
  pub feature_canary_releases : Bool
  pub feature_analytics : Bool
  pub admin_api_key : Text
  pub config_reload_interval_ms : ℕ
  pub circuit_breaker_timeout_ms : ℕ
  pub circuit_breaker_error_threshold_percent : ℕ
  pub circuit_breaker_reset_timeout_ms : ℕ
  pub cache_enabled : Bool
  pub cache_default_ttl_seconds : ℕ
  pub upstream_health_enabled : Bool
  pub upstream_health_check_interval_ms : ℕ
  pub upstream_health_timeout_ms : ℕ

abbrev is_one_of : Text → List Text → Bool
is_one_of v [] = false
is_one_of v (w ∷ ws) = text_eq v w || is_one_of v ws

-- `z.enum(allowed).default(fallback)`
abbrev pub choice : List Text → Text → Option Text → Option Text
choice allowed fallback none = some fallback
choice allowed fallback (some v) = if is_one_of v allowed then some v else none

-- `z.string().transform((v) => v === 'true').default(...)`
abbrev pub flag_var : Text → Option Text → Bool
flag_var fallback none = text_eq fallback (codes "true")
flag_var fallback (some v) = text_eq v (codes "true")

-- `z.string().default(fallback)`
abbrev text_or : Text → Option Text → Text
text_or fallback none = fallback
text_or fallback (some v) = v

-- `z.string().min(n)`
unfoldable pub at_least : ℕ → Option Text → Option Text
at_least n none = none
at_least n (some v) = if leb n (length v) then some v else none

-- What zod takes for a URL, and `Number(v)` of a variable, with `none` for NaN. Negative numbers and
-- fractions are left out.
module _ (is_url : Text → Bool) (to_number : Text → Option ℕ) where
  -- `z.coerce.number().default(fallback)`
  abbrev number_var : ℕ → Option Text → Option ℕ
  number_var fallback none = some fallback
  number_var fallback (some v) = to_number v

  -- `z.string().url()`
  abbrev url_var : Option Text → Option Text
  url_var none = none
  url_var (some v) = if is_url v then some v else none

  -- `z.string().url().optional()`
  abbrev optional_url : Option Text → Option (Option Text)
  optional_url none = some none
  optional_url (some v) = if is_url v then some (some v) else none

  unfoldable pub server_vars : Dict Text → Option (Text × (ℕ × Text))
  unfolding lookup text_eq
  server_vars vars = do
    node_env ←
        choice (codes "development" ∷ codes "test" ∷ codes "production" ∷ []) (codes "development")
          (lookup (codes "NODE_ENV") vars)
    port ← number_var 3000 (lookup (codes "PORT") vars)
    log_level ←
        choice
          (codes "trace"
            ∷ codes "debug"
            ∷ codes "info"
            ∷ codes "warn"
            ∷ codes "error"
            ∷ codes "fatal"
            ∷ codes "silent"
            ∷ [])
          (codes "info") (lookup (codes "LOG_LEVEL") vars)
    some (node_env, (port, log_level))

  unfoldable pub store_vars : Dict Text → Option (Text × Text)
  unfolding lookup
  store_vars vars = do
    database_url ← url_var (lookup (codes "DATABASE_URL") vars)
    redis_url ← url_var (lookup (codes "REDIS_URL") vars)
    some (database_url, redis_url)

  unfoldable pub auth_vars : Dict Text → Option (Option Text × ℕ)
  unfolding lookup
  auth_vars vars = do
    jwks_uri ← optional_url (lookup (codes "JWKS_URI") vars)
    ttl ← number_var 600 (lookup (codes "JWKS_CACHE_TTL_SECONDS") vars)
    some (jwks_uri, ttl)

  unfoldable pub limit_vars : Dict Text → Option (ℕ × ℕ)
  unfolding lookup
  limit_vars vars = do
    rps ← number_var 100 (lookup (codes "RATE_LIMIT_DEFAULT_RPS") vars)
    burst ← number_var 200 (lookup (codes "RATE_LIMIT_DEFAULT_BURST") vars)
    some (rps, burst)

  unfoldable breaker_vars : Dict Text → Option (ℕ × (ℕ × ℕ))
  unfolding lookup
  breaker_vars vars = do
    timeout ← number_var 3000 (lookup (codes "CIRCUIT_BREAKER_TIMEOUT_MS") vars)
    threshold ← number_var 50 (lookup (codes "CIRCUIT_BREAKER_ERROR_THRESHOLD_PERCENT") vars)
    reset ← number_var 10000 (lookup (codes "CIRCUIT_BREAKER_RESET_TIMEOUT_MS") vars)
    some (timeout, (threshold, reset))

  unfoldable health_vars : Dict Text → Option (ℕ × ℕ)
  unfolding lookup
  health_vars vars = do
    interval ← number_var 30000 (lookup (codes "UPSTREAM_HEALTH_CHECK_INTERVAL_MS") vars)
    timeout ← number_var 3000 (lookup (codes "UPSTREAM_HEALTH_TIMEOUT_MS") vars)
    some (interval, timeout)

  unfoldable pub tuning_vars : Dict Text → Option (ℕ × ((ℕ × (ℕ × ℕ)) × (ℕ × (ℕ × ℕ))))
  unfolding breaker_vars health_vars lookup
  tuning_vars vars = do
    reload_interval ← number_var 5000 (lookup (codes "CONFIG_RELOAD_INTERVAL_MS") vars)
    breaker ← breaker_vars vars
    cache_ttl ← number_var 0 (lookup (codes "CACHE_DEFAULT_TTL_SECONDS") vars)
    health ← health_vars vars
    some (reload_interval, (breaker, (cache_ttl, health)))

  -- `envSchema.safeParse(process.env)`, with `none` where the process exits.
  unfoldable pub parse_env : Dict Text → Option ParsedEnv
  unfolding server_vars store_vars auth_vars limit_vars tuning_vars at_least lookup text_eq
  parse_env vars = do
    server ← server_vars vars
    stores ← store_vars vars
    auth ← auth_vars vars
    limits ← limit_vars vars
    admin_api_key ← at_least 16 (lookup (codes "ADMIN_API_KEY") vars)
    tuning ← tuning_vars vars
    some (record {
      node_env = server.0;
      port = server.1.0;
      log_level = server.1.1;
      database_url = stores.0;
      redis_url = stores.1;
      jwks_uri = auth.0;
      jwt_audience = text_or (codes "api-gateway") (lookup (codes "JWT_AUDIENCE") vars);
      jwt_issuer = lookup (codes "JWT_ISSUER") vars;
      jwks_cache_ttl_seconds = auth.1;
      rate_limit_enabled = flag_var (codes "true") (lookup (codes "RATE_LIMIT_ENABLED") vars);
      rate_limit_default_rps = limits.0;
      rate_limit_default_burst = limits.1;
      feature_canary_releases =
          flag_var (codes "false") (lookup (codes "FEATURE_CANARY_RELEASES") vars);
      feature_analytics = flag_var (codes "false") (lookup (codes "FEATURE_ANALYTICS") vars);
      admin_api_key = admin_api_key;
      config_reload_interval_ms = tuning.0;
      circuit_breaker_timeout_ms = tuning.1.0.0;
      circuit_breaker_error_threshold_percent = tuning.1.0.1.0;
      circuit_breaker_reset_timeout_ms = tuning.1.0.1.1;
      cache_enabled = flag_var (codes "false") (lookup (codes "CACHE_ENABLED") vars);
      cache_default_ttl_seconds = tuning.1.1.0;
      upstream_health_enabled =
          flag_var (codes "false") (lookup (codes "UPSTREAM_HEALTH_ENABLED") vars);
      upstream_health_check_interval_ms = tuning.1.1.1.0;
      upstream_health_timeout_ms = tuning.1.1.1.1;
    })
