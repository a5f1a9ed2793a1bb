-- ===== src/Models.antt =====
-- src/models/route.model.ts, src/models/policy.model.ts, src/models/config-version.model.ts: the
-- rows of the configuration. Dates are numbers of milliseconds, and `null` is `none`. The request
-- bodies of the admin API are those of the same files, less the fields that only a body has.
use ts_api_gateway.Common.{ℕ, Bool, Option, Text}

pub record Route : Type 0 where
  pub id : Text
  pub name : Text
  pub path_prefix : Text
  pub upstream_host : Text
  pub upstream_port : ℕ
  pub strip_path : Bool
  pub connect_timeout_ms : ℕ
  pub request_timeout_ms : ℕ
  pub retries : ℕ
  pub enabled : Bool
  pub canary_upstream_host : Option Text
  pub canary_upstream_port : Option ℕ
  pub canary_weight : Option ℕ
  pub created_at : ℕ
  pub updated_at : ℕ

pub record Policy : Type 0 where
  pub id : Text
  pub route_id : Text
  pub auth_required : Bool
  pub rate_limit_rps : Option ℕ
  pub rate_limit_burst : Option ℕ
  pub cache_ttl_seconds : Option ℕ
  pub created_at : ℕ
  pub updated_at : ℕ

pub record ConfigVersion : Type 0 where
  pub id : ℕ
  pub version : ℕ
  pub checksum : Text
  pub published_at : ℕ
