-- ===== src/Gateway/Samples.antt =====
-- A gateway with two routes over counting services, for the runs in the module of tests.
use ts_api_gateway.Common.{replicate, ℕ, ◌+◌, true, false, none, some, [], ◌∷◌, Text, codes, Dict}
use ts_api_gateway.Gateway.{Env, CachedConfig, no_body, Request}
use ts_api_gateway.Gateway.Cache.{CacheStore, other}
use ts_api_gateway.Gateway.Handler.{Backend}
use ts_api_gateway.Gateway.Pipeline.{Services}
use ts_api_gateway.Models.{Route, Policy}
use ts_api_gateway.Proxy.{not_an_error, Outcome, resolved, thrown, HeaderValue, one}
use ts_api_gateway.RateLimiter.{RateLimitResult}

abbrev pub sample_env : Env
sample_env = record {
  rate_limit_enabled = true;
  rate_limit_default_rps = 100;
  rate_limit_default_burst = 150;
  feature_canary_releases = false;
  cache_enabled = true;
  cache_default_ttl_seconds = 60;
}

abbrev pub plain_route : Text → Text → Route
plain_route name prefix = record {
  id = name;
  name = name;
  path_prefix = prefix;
  upstream_host = codes "upstream";
  upstream_port = 3000;
  strip_path = false;
  connect_timeout_ms = 200;
  request_timeout_ms = 2000;
  retries = 2;
  enabled = true;
  canary_upstream_host = none;
  canary_upstream_port = none;
  canary_weight = none;
  created_at = 0;
  updated_at = 0;
}

abbrev pub secret : Route
secret = plain_route (codes "secret") (codes "/secret")

abbrev pub shop : Route
shop = plain_route (codes "shop") (codes "/shop")

abbrev pub guards : Policy
guards = record {
  id = codes "p1";
  route_id = codes "secret";
  auth_required = true;
  rate_limit_rps = none;
  rate_limit_burst = none;
  cache_ttl_seconds = none;
  created_at = 0;
  updated_at = 0;
}

abbrev pub sample_config : CachedConfig
sample_config = record {
  routes = secret ∷ shop ∷ [];
  policies = (codes "secret", guards) ∷ [];
  version = 1;
}

abbrev pub sample_request : Text → Dict HeaderValue → Request
sample_request url headers = record {
  method = codes "GET";
  url = url;
  headers = headers;
  ip = some (codes "10.0.0.1");
  body = no_body;
  context = record {
    trace_id = [];
    span_id = none;
    user_id = none;
    cache_key = none;
    cache_ttl = none;
  };
}

abbrev pub anonymous : Request
anonymous = sample_request (codes "/secret/1") []

abbrev pub signed : Request
signed = sample_request (codes "/secret/1") ((codes "authorization", one (codes "Bearer t")) ∷ [])

abbrev pub browse : Request
browse = sample_request (codes "/shop?page=2") []

-- The world counts the calls of the services.
abbrev pub verify_t : Text → ℕ → Outcome Text × ℕ
verify_t [] w = (thrown not_an_error, w + 1)
verify_t (c ∷ token) w = (resolved (codes "alice"), w + 1)

abbrev pub refuse : Text → Text → ℕ → ℕ → ℕ → RateLimitResult × ℕ
refuse route client rps burst w =
    (record { allowed = false; remaining = 0; reset_at_ms = w + 1500; limit = burst }, w + 1)

abbrev pub empty_store : CacheStore ℕ
empty_store = record {
  get_cached = λ key w. (none, w + 1);
  set_cached = λ key entry ttl w. w + 1000;
  to_base64 = λ b. b;
  from_base64 = λ b. b;
  now = λ w. w;
}

abbrev pub answering : Backend ℕ
answering = record {
  fire = λ key options w. (
    resolved (record { status_code = 200; headers = []; body = 104 ∷ []; upstream_latency_ms = 1 }),
    w + 1,
  );
  record_request = λ name status latency w. w + 1;
  now = λ w. w;
  random = λ w. (0, w);
}

abbrev pub sample_services : Services ℕ
sample_services = record {
  verify = verify_t;
  check = refuse;
  store = empty_store;
  backend = answering;
  serialise = λ p. other;
}

abbrev pub ids : Text
ids = replicate 32 b'a'

abbrev pub span_ids : Text
span_ids = replicate 16 b'b'
