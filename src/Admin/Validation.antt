-- ===== src/Admin/Validation.antt =====
-- The zod schemas of src/controllers/route.controller.ts and policy.controller.ts.
use ts_api_gateway.Common.{
  leb, ◌==◌, if◌then◌else◌, length, ℕ, Bool, true, ◌&&◌, ◌||◌, Option, none, some, [], ◌∷◌, Text,
  codes, starts_with,
}
use ts_api_gateway.Storage.Policies.{CreatePolicyDto}
use ts_api_gateway.Storage.Routes.{CanaryDto, CreateRouteDto, UpdateRouteDto}

-- The body of a creation: the fields that clients send, a canary among them.
pub record RouteBody : Type 0 where
  pub name : Text
  pub path_prefix : Text
  pub host : Text
  pub port : ℕ
  pub strip_path : Option Bool
  pub connect : Option ℕ
  pub request : Option ℕ
  pub retries : Option ℕ
  pub canary : Option CanaryDto

pub record RouteChanges : Type 0 where
  pub name : Option Text
  pub path_prefix : Option Text
  pub upstream : Option (Text × ℕ)
  pub strip_path : Option Bool
  pub connect : Option ℕ
  pub request : Option ℕ
  pub retries : Option ℕ
  pub enabled : Option Bool
  pub canary : Option CanaryDto

pub record PolicyBody : Type 0 where
  pub route : Text
  pub auth_required : Option Bool
  pub rate_limit : Option (ℕ × ℕ)
  pub cache_ttl_seconds : Option ℕ

-- `min(a).max(b)` on a number.
abbrev within : ℕ → ℕ → ℕ → Bool
within a b n = leb a n && leb n b

-- `.optional()`
abbrev optional {ℓ} : {A : Type ℓ} → (A → Bool) → Option A → Bool
optional p none = true
optional p (some a) = p a

-- `/^[a-z0-9-_]+$/`
abbrev name_char : ℕ → Bool
name_char c = within b'a' b'z' c || (within b'0' b'9' c || (c == b'-' || c == b'_'))

abbrev every : (ℕ → Bool) → Text → Bool
every p [] = true
every p (c ∷ s) = p c && every p s

abbrev valid_name : Text → Bool
valid_name s = within 1 255 (length s) && every name_char s

abbrev valid_prefix : Text → Bool
valid_prefix s = leb 1 (length s) && starts_with s (codes "/")

abbrev valid_upstream : Text × ℕ → Bool
valid_upstream (host, port) = leb 1 (length host) && within 1 65535 port

abbrev valid_timeouts : Option ℕ → Option ℕ → Bool
valid_timeouts connect request =
    optional (within 1 30000) connect && optional (within 1 60000) request

unfoldable pub parse_create_route : RouteBody → Option CreateRouteDto
unfolding starts_with
parse_create_route body =
    if valid_name body.name
      && (valid_prefix body.path_prefix
          && (valid_upstream (body.host, body.port)
              && (valid_timeouts body.connect body.request && optional (within 0 10) body.retries)))
    then some (record {
      name = body.name;
      path_prefix = body.path_prefix;
      upstream_host = body.host;
      upstream_port = body.port;
      strip_path = body.strip_path;
      connect_timeout_ms = body.connect;
      request_timeout_ms = body.request;
      retries = body.retries;
      canary = none;
    })
    else none

unfoldable pub parse_update_route : RouteChanges → Option UpdateRouteDto
unfolding starts_with
parse_update_route body =
    if optional valid_name body.name
      && (optional valid_prefix body.path_prefix
          && (optional valid_upstream body.upstream
              && (valid_timeouts body.connect body.request && optional (within 0 10) body.retries)))
    then some (record {
      name = body.name;
      path_prefix = body.path_prefix;
      upstream = body.upstream;
      strip_path = body.strip_path;
      connect_timeout_ms = body.connect;
      request_timeout_ms = body.request;
      retries = body.retries;
      enabled = body.enabled;
      canary = none;
    })
    else none

abbrev valid_limit : ℕ × ℕ → Bool
valid_limit (rps, burst) = leb 1 rps && leb 1 burst

unfoldable pub parse_create_policy : PolicyBody → Option CreatePolicyDto
parse_create_policy body =
    if leb 1 (length body.route) && optional valid_limit body.rate_limit
    then some (record {
      route = body.route;
      auth_required = body.auth_required;
      rate_limit = body.rate_limit;
      cache_ttl_seconds = none;
    })
    else none
