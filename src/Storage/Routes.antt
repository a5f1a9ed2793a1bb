-- ===== src/Storage/Routes.antt =====
-- src/repositories/route.repository.ts.
use mathlib.Core.Option
use ts_api_gateway.Common.{
  leb, or_default, length, keep, ℕ, Bool, true, false, not, Option, none, some, List, [], ◌∷◌, ◌++◌,
  Text, text_eq,
}
use ts_api_gateway.Models.{Route}
use ts_api_gateway.Storage.{Tables, insert_row, order_by, first_row, update_rows}

-- `CreateRouteDto` of src/models/route.model.ts, with `none` for a field that is left out.
pub record CanaryDto : Type 0 where
  pub host : Text
  pub port : ℕ
  pub weight : ℕ

pub record CreateRouteDto : Type 0 where
  pub name : Text
  pub path_prefix : Text
  pub upstream_host : Text
  pub upstream_port : ℕ
  pub strip_path : Option Bool
  pub connect_timeout_ms : Option ℕ
  pub request_timeout_ms : Option ℕ
  pub retries : Option ℕ
  pub canary : Option CanaryDto

-- `UpdateRouteDto`: every field may be left out.
pub record UpdateRouteDto : Type 0 where
  pub name : Option Text
  pub path_prefix : Option Text
  pub upstream : Option (Text × ℕ)
  pub strip_path : Option Bool
  pub connect_timeout_ms : Option ℕ
  pub request_timeout_ms : Option ℕ
  pub retries : Option ℕ
  pub enabled : Option Bool
  pub canary : Option CanaryDto

abbrev pub has_route_id : Text → Route → Bool
has_route_id id route = text_eq route.id id

unfoldable pub find_all : Tables → List Route
unfolding order_by insert_row
find_all tables = order_by (λ a b. leb a.created_at b.created_at) tables.routes

unfoldable pub find_by_id : Text → Tables → Option Route
unfolding first_row
find_by_id id tables = first_row (has_route_id id) tables.routes

unfoldable pub find_by_name : Text → Tables → Option Route
unfolding first_row text_eq
find_by_name name tables = first_row (λ r. text_eq r.name name) tables.routes

unfoldable pub find_enabled : Tables → List Route
unfolding order_by insert_row
find_enabled tables =
    order_by (λ a b. leb (length b.path_prefix) (length a.path_prefix))
      (keep (λ r. r.enabled) tables.routes)

-- The row that `create` inserts; the table's defaults are `enabled = true` and the time.
abbrev pub created_row : Text → ℕ → CreateRouteDto → Route
created_row id now dto = record {
  id = id;
  name = dto.name;
  path_prefix = dto.path_prefix;
  upstream_host = dto.upstream_host;
  upstream_port = dto.upstream_port;
  strip_path = or_default dto.strip_path false;
  connect_timeout_ms = or_default dto.connect_timeout_ms 200;
  request_timeout_ms = or_default dto.request_timeout_ms 2000;
  retries = or_default dto.retries 2;
  enabled = true;
  canary_upstream_host = Option.map (λ (c : CanaryDto). c.host) dto.canary;
  canary_upstream_port = Option.map (λ (c : CanaryDto). c.port) dto.canary;
  canary_weight = Option.map (λ (c : CanaryDto). c.weight) dto.canary;
  created_at = now;
  updated_at = now;
}

unfoldable pub create : Text → ℕ → CreateRouteDto → Tables → Route × Tables
create id now dto tables = (
  created_row id now dto,
  record tables { routes = tables.routes ++ (created_row id now dto ∷ []) },
)

-- `a ?? b` where `b` may be null as well.
abbrev pub or_else {ℓ} : {A : Type ℓ} → Option A → Option A → Option A
or_else none b = b
or_else (some a) b = some a

-- What `update` writes over the existing row.
abbrev pub merged : ℕ → UpdateRouteDto → Route → Route
merged now dto existing = record existing {
  name = or_default dto.name existing.name;
  path_prefix = or_default dto.path_prefix existing.path_prefix;
  upstream_host = or_default (Option.map (λ u. u.0) dto.upstream) existing.upstream_host;
  upstream_port = or_default (Option.map (λ u. u.1) dto.upstream) existing.upstream_port;
  strip_path = or_default dto.strip_path existing.strip_path;
  connect_timeout_ms = or_default dto.connect_timeout_ms existing.connect_timeout_ms;
  request_timeout_ms = or_default dto.request_timeout_ms existing.request_timeout_ms;
  retries = or_default dto.retries existing.retries;
  enabled = or_default dto.enabled existing.enabled;
  canary_upstream_host =
      or_else (Option.map (λ (c : CanaryDto). c.host) dto.canary) existing.canary_upstream_host;
  canary_upstream_port =
      or_else (Option.map (λ (c : CanaryDto). c.port) dto.canary) existing.canary_upstream_port;
  canary_weight =
      or_else (Option.map (λ (c : CanaryDto). c.weight) dto.canary) existing.canary_weight;
  updated_at = now;
}

unfoldable pub update : Text → ℕ → UpdateRouteDto → Tables → Option Route × Tables
unfolding update_rows text_eq find_by_id
update id now dto tables = elim (find_by_id id tables) [
  | none ↦ (none, tables)
  | some existing ↦ (
    some (merged now dto existing),
    record tables {
      routes = update_rows (has_route_id id) (λ row. merged now dto existing) tables.routes;
    },
  )
]

-- `DELETE`, and whether a row was deleted; the policies of the route go with it.
unfoldable pub delete : Text → Tables → Bool × Tables
unfolding text_eq find_by_id
delete id tables = elim (find_by_id id tables) [
  | none ↦ (false, tables)
  | some route ↦ (
    true,
    record tables {
      routes = keep (λ r. not (has_route_id id r)) tables.routes;
      policies = keep (λ p. not (text_eq p.route_id id)) tables.policies;
    },
  )
]
