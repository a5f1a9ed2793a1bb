-- ===== src/Admin/Writes.antt =====
-- The writes of the admin requests as a step relation on the tables, and how a request can end: what
-- the laws about the admin API are proved from.
pub mod Endpoints
pub mod Requests
use ts_api_gateway.Admin.{
  AdminReply, Stamp, publish, AdminRequest, reads_routes, reads_policies, reads_route, handle,
}
use ts_api_gateway.Admin.Validation.{
  RouteBody, RouteChanges, PolicyBody, parse_create_route, parse_update_route, parse_create_policy,
}
use ts_api_gateway.Common.{◌≤◌, ◌<◌, ◌≡◌, ◌⊎◌, Bool, true, false, none, some, List, [], ◌∷◌, Text}
use ts_api_gateway.Models.{Route, Policy}
use ts_api_gateway.Storage.{Tables}
use ts_api_gateway.Storage.Constraints.{held_by_other}
use ts_api_gateway.Storage.Policies.{CreatePolicyDto, policy_by_id, upsert, delete_policy}
use ts_api_gateway.Storage.Routes.{
  CreateRouteDto, UpdateRouteDto, find_by_id, find_by_name, create, merged, update, delete,
}

-- A write of the API that the checks and the constraints let through, without the published version.
pub data Write (stamp : Stamp) (tables : Tables) : Tables → Type 0 where
  inserts :
      (body : RouteBody) (dto : CreateRouteDto)
      → parse_create_route body ≡ some dto
      → find_by_id stamp.row_id tables ≡ none
      → find_by_name dto.name tables ≡ none
      → Write stamp tables (create stamp.row_id stamp.now dto tables).1
  changes :
      (id : Text) (body : RouteChanges) (dto : UpdateRouteDto) (existing : Route)
      → parse_update_route body ≡ some dto
      → find_by_id id tables ≡ some existing
      → held_by_other id (merged stamp.now dto existing).name tables ≡ none
      → Write stamp tables (update id stamp.now dto tables).1
  drops :
      (id : Text) (existing : Route)
      → find_by_id id tables ≡ some existing
      → Write stamp tables (delete id tables).1
  upserts :
      (route_id : Text) (body : PolicyBody) (dto : CreatePolicyDto) (route : Route)
      → parse_create_policy body ≡ some dto
      → find_by_id route_id tables ≡ some route
      → Write stamp tables (upsert stamp.row_id stamp.now route_id dto tables).1
  removes :
      (id : Text) (existing : Policy)
      → policy_by_id id tables ≡ some existing
      → Write stamp tables (delete_policy id tables).1

abbrev pub Refused : Tables → AdminReply × Tables → Type 0
Refused tables result = (400 ≤ result.0.status_code) × (result.1 ≡ tables)

-- A write, and then a `bump` with the reply that a success would have.
abbrev pub Wrote : Stamp → Tables → AdminReply × Tables → Type 0
Wrote stamp tables result =
    (written : Tables) × (reply : AdminReply) × (reply.status_code < 300)
    × Write stamp tables written
    × (result ≡ publish stamp reply written)

abbrev pub Ends : Stamp → Tables → AdminReply × Tables → Type 0
Ends stamp tables result = Refused tables result ⊎ Wrote stamp tables result

abbrev pub is_write : AdminRequest → Bool
is_write reads_routes = false
is_write reads_policies = false
is_write (reads_route id) = false
is_write _ = true

-- The requests of the admin API, one after the other.
abbrev pub handle_all : List (Stamp × AdminRequest) → Tables → Tables
handle_all [] tables = tables
handle_all ((stamp, request) ∷ requests) tables =
    handle_all requests (handle stamp request tables).1
