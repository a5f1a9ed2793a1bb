-- ===== src/Storage/Constraints.antt =====
-- The writes of src/repositories under the constraints that scripts/migrate.ts puts on the tables:
-- the primary keys, the unique name of a route, and the route that a policy refers to. A write that
-- would break one throws PostgreSQL's error and changes nothing. The limits on the columns' lengths
-- and sizes are not constraints of the model.
use ts_api_gateway.Common.{
  if◌then◌else◌, ℕ, Bool, true, false, not, ◌&&◌, Option, none, some, Text, codes, text_eq,
}
use ts_api_gateway.Models.{Route, Policy}
use ts_api_gateway.Proxy.{Thrown, error, Outcome, resolved, thrown}
use ts_api_gateway.Storage.{Tables, first_row}
use ts_api_gateway.Storage.Policies.{CreatePolicyDto, policy_by_id, find_by_route_id, upsert}
use ts_api_gateway.Storage.Routes.{
  CreateRouteDto, UpdateRouteDto, has_route_id, find_by_id, find_by_name, create, merged, update,
}

abbrev pub unique_violation : Thrown
unique_violation = error (codes "error") (codes "duplicate key value") (some (codes "23505"))

abbrev pub foreign_key_violation : Thrown
foreign_key_violation = error (codes "error") (codes "foreign key") (some (codes "23503"))

abbrev pub present {ℓ} : {A : Type ℓ} → Option A → Bool
present none = false
present (some a) = true

-- Another row than that of the id holds the name.
unfoldable pub held_by_other : Text → Text → Tables → Option Route
unfolding first_row
held_by_other id name tables =
    first_row (λ r. text_eq r.name name && not (has_route_id id r)) tables.routes

unfoldable pub insert_route : Text → ℕ → CreateRouteDto → Tables → Outcome Route × Tables
insert_route id now dto tables =
    if present (find_by_id id tables)
    then (thrown unique_violation, tables)
    else if present (find_by_name dto.name tables)
    then (thrown unique_violation, tables)
    else let (route, tables') = create id now dto tables in (resolved route, tables')

unfoldable pub change_route : Text → ℕ → UpdateRouteDto → Tables → Outcome (Option Route) × Tables
change_route id now dto tables = elim (find_by_id id tables) [
  | none ↦ (resolved none, tables)
  | some existing ↦
      if present (held_by_other id (merged now dto existing).name tables)
      then (thrown unique_violation, tables)
      else let (changed, tables') = update id now dto tables in (resolved changed, tables')
]

unfoldable pub upsert_policy : Text → ℕ → Text → CreatePolicyDto → Tables → Outcome Policy × Tables
upsert_policy id now route_id dto tables =
    if not (present (find_by_id route_id tables))
    then (thrown foreign_key_violation, tables)
    else if present (policy_by_id id tables) && not (present (find_by_route_id route_id tables))
    then (thrown unique_violation, tables)
    else let (policy, tables') = upsert id now route_id dto tables in (resolved policy, tables')
