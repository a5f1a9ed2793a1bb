-- ===== src/Settings/Tests.antt =====
-- A process that starts with the three variables it needs, and the theorem at a short key.
use ts_api_gateway.Admin.{goes_through, Stamp, reads_routes, admin}
use ts_api_gateway.Common.{
  ℕ, ◌-◌, ◌≡◌, refl, Bool, true, false, ◌||◌, Option, none, some, [], ◌∷◌, arith, Text, codes,
  text_eq, starts_with, lookup, put, Dict,
}
use ts_api_gateway.Proxy.{HeaderValue, one}
use ts_api_gateway.Settings.{ParsedEnv, tuning_vars, parse_env}
use ts_api_gateway.Settings.Startup.{parse_env-short_keys}
use ts_api_gateway.Storage.{Tables}

abbrev scheme_only : Text → Bool
scheme_only s = starts_with s (codes "postgres://") || starts_with s (codes "redis://")

abbrev one_digit : Text → Option ℕ
one_digit (d ∷ []) = some (d - b'0')
one_digit _ = none

abbrev needed_vars : Dict Text
needed_vars =
    (codes "DATABASE_URL", codes "postgres://db")
    ∷ (codes "REDIS_URL", codes "redis://cache")
    ∷ (codes "ADMIN_API_KEY", codes "0123456789abcdef")
    ∷ (codes "CACHE_DEFAULT_TTL_SECONDS", codes "5")
    ∷ []

abbrev started_env : ParsedEnv
started_env = record {
  node_env = codes "development";
  port = 3000;
  log_level = codes "info";
  database_url = codes "postgres://db";
  redis_url = codes "redis://cache";
  jwks_uri = none;
  jwt_audience = codes "api-gateway";
  jwt_issuer = none;
  jwks_cache_ttl_seconds = 600;
  rate_limit_enabled = true;
  rate_limit_default_rps = 100;
  rate_limit_default_burst = 200;
  feature_canary_releases = false;
  feature_analytics = false;
  admin_api_key = codes "0123456789abcdef";
  config_reload_interval_ms = 5000;
  circuit_breaker_timeout_ms = 3000;
  circuit_breaker_error_threshold_percent = 50;
  circuit_breaker_reset_timeout_ms = 10000;
  cache_enabled = false;
  cache_default_ttl_seconds = 5;
  upstream_health_enabled = false;
  upstream_health_check_interval_ms = 30000;
  upstream_health_timeout_ms = 3000;
}

starts : parse_env scheme_only one_digit needed_vars ≡ some started_env
unfolding parse_env tuning_vars lookup text_eq starts_with
starts = refl

refuses_short_key :
    parse_env scheme_only one_digit (put (codes "ADMIN_API_KEY") (codes "short") needed_vars) ≡ none
unfolding parse_env tuning_vars lookup put text_eq starts_with
refuses_short_key = refl

abbrev no_rows : Tables
no_rows = record { routes = []; policies = []; versions = [] }

abbrev first_stamp : Stamp
first_stamp = record {
  row_id = codes "r1";
  version_id = 1;
  checksum = codes "c";
  now = 10;
  bump_end = goes_through;
}

abbrev short_key : Dict HeaderValue
short_key = (codes "x-api-key", one (codes "0123")) ∷ []

short_key_sent : lookup (codes "x-api-key") short_key ≡ some (one (codes "0123"))
unfolding lookup text_eq
short_key_sent = refl

parse_env-short_keys_example :
    let result =
      admin
        (λ request. none)
        started_env.admin_api_key
        short_key
        first_stamp
        reads_routes
        no_rows in
    (result.0.status_code ≡ 401) × (result.1 ≡ no_rows)
parse_env-short_keys_example =
    parse_env-short_keys scheme_only one_digit needed_vars started_env (λ request. none) short_key
      (codes "0123") first_stamp reads_routes no_rows starts short_key_sent (omega arith)
