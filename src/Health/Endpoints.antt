-- ===== src/Health/Endpoints.antt =====
-- src/routes/health.routes.ts and `GET /admin/upstreams` of src/routes/admin.routes.ts: the handlers
-- of the probes.
use ts_api_gateway.Common.{
  if◌then◌else◌, length, ℕ, Bool, not, ◌||◌, Option, List, [], ◌∷◌, Text, lookup, Dict,
}
use ts_api_gateway.Connections.{PgPool, check_db_connection, check_redis_connection}
use ts_api_gateway.Gateway.{CachedConfig}
use ts_api_gateway.Health.{UpstreamHealth}
use ts_api_gateway.Metrics.{State, Snapshot, get_metrics}
use ts_api_gateway.Proxy.{Outcome}

pub data ProbePayload : Type 0 where
  alive : ProbePayload
  not_ready : (database redis : Bool) → ProbePayload
  ready : (database redis : Bool) (routes_loaded config_version : ℕ) → ProbePayload
  metrics : Snapshot → ProbePayload
  upstreams : List UpstreamHealth → ProbePayload

-- `GET /healthz`
abbrev pub healthz : ℕ × ProbePayload
healthz = (200, alive)

-- `GET /readyz`. The two checks run at the same time in the code; the first one first here.
unfoldable pub readyz :
    {W : Type 0} → PgPool W → (W → Outcome Text × W) → CachedConfig → W → (ℕ × ProbePayload) × W
unfolding check_db_connection check_redis_connection
readyz pool ping cache w =
    let (db_ok, w1) = check_db_connection pool w in
    let (redis_ok, w2) = check_redis_connection ping w1 in
    if not db_ok || not redis_ok
    then ((503, not_ready db_ok redis_ok), w2)
    else ((200, ready db_ok redis_ok (length cache.routes) cache.version), w2)

-- `GET /metrics`
abbrev pub metrics_reply : ℕ → State → ℕ × ProbePayload
metrics_reply now state = (200, metrics (get_metrics now state))

-- getAllUpstreamHealth, getUpstreamHealth
abbrev pub values {ℓ} : {V : Type ℓ} → Dict V → List V
values [] = []
values ((k, v) ∷ m) = v ∷ values m

abbrev pub get_upstream_health : Text → Dict UpstreamHealth → Option UpstreamHealth
get_upstream_health key health_map = lookup key health_map

abbrev pub list_upstreams : Dict UpstreamHealth → ℕ × ProbePayload
list_upstreams health_map = (200, upstreams (values health_map))
