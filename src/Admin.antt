-- ===== src/Admin.antt =====
-- src/controllers and src/middlewares/admin-auth.middleware.ts: the admin API over the tables. The
-- requests are the endpoints that src/routes/admin.routes.ts registers for routes and policies. A
-- body is given here with its fields in their JSON types (Bodies decodes them); the checks of the zod
-- schemas on the values are written out, and the fields that a schema does not name are dropped, as
-- zod does. A creation has its check and its writes apart, since other requests may come between; the
-- other requests run to their end before the next one. A write and its `bump` are several
-- queries in the code and one step here, where `bump` may throw and the other queries answer;
-- ConfigCache/Interleaving takes them apart.
pub mod Validation
pub mod Writes
pub mod Publishing
pub mod Canaries
pub mod Keyed
pub mod Bodies
pub mod Defaults
mod Tests
use ts_api_gateway.Admin.Validation.{
  RouteBody, RouteChanges, PolicyBody, parse_create_route, parse_update_route, parse_create_policy,
}
use ts_api_gateway.Common.{
  if◌then◌else◌, length, ℕ, ◌⊎◌, inl, inr, Bool, false, not, Option, none, some, List, ◌∷◌, ◌++◌,
  Text, codes, text_eq, lookup, Dict,
}
use ts_api_gateway.ErrorHandler.{error_handler}
use ts_api_gateway.Models.{Route, Policy}
use ts_api_gateway.Proxy.{Thrown, error, resolved, thrown, HeaderValue, one}
use ts_api_gateway.Storage.{Tables}
use ts_api_gateway.Storage.Constraints.{insert_route, change_route, upsert_policy}
use ts_api_gateway.Storage.Policies.{all_policies, find_by_route_id, delete_policy}
use ts_api_gateway.Storage.Routes.{CreateRouteDto, find_all, find_by_id, find_by_name, delete}
use ts_api_gateway.Storage.Versions.{bump}

pub data AdminPayload : Type 0 where
  routes_data : (rows : List Route) (count : ℕ) → AdminPayload
  route_data : Route → AdminPayload
  route_with_policy : Route → Option Policy → AdminPayload
  policies_data : (rows : List Policy) (count : ℕ) → AdminPayload
  policy_data : Policy → AdminPayload
  admin_error : Text → AdminPayload
  empty_payload : AdminPayload

pub record AdminReply : Type 0 where
  pub status_code : ℕ
  pub payload : AdminPayload

abbrev pub answer_with : ℕ → AdminPayload → AdminReply
answer_with status_code payload = record { status_code = status_code; payload = payload }

-- How the queries of `bump` end: both go through; one throws and no row is inserted; or the row is
-- inserted and the reply lost, so that the query throws all the same.
pub data BumpEnd : Type 0 where
  goes_through : BumpEnd
  breaks_off : BumpEnd
  inserts_unheard : BumpEnd

-- What the database and the random source give to the rows of one request, and how its `bump` ends.
pub record Stamp : Type 0 where
  pub row_id : Text
  pub version_id : ℕ
  pub checksum : Text
  pub now : ℕ
  pub bump_end : BumpEnd

abbrev pub bumped : Stamp → Tables → Tables
bumped stamp tables = (bump stamp.version_id stamp.checksum stamp.now tables).1

-- What `errorHandler` answers to an error of the database.
abbrev pub failed : Thrown → AdminReply
failed err =
    let (status, message) = error_handler none err in answer_with status (admin_error message)

-- A lost connection.
abbrev pub query_failed : Thrown
query_failed = error (codes "Error") (codes "Connection terminated unexpectedly") none

-- `await configVersionRepository.bump()` behind a write, and the reply. No transaction holds the two,
-- so the write stays when `bump` throws.
unfoldable pub publish : Stamp → AdminReply → Tables → AdminReply × Tables
unfolding error_handler
publish stamp reply tables = elim stamp.bump_end [
  | goes_through ↦ (reply, bumped stamp tables)
  | breaks_off ↦ (failed query_failed, tables)
  | inserts_unheard ↦ (failed query_failed, bumped stamp tables)
]

unfoldable pub list_routes : Tables → AdminReply × Tables
list_routes tables =
    (answer_with 200 (routes_data (find_all tables) (length (find_all tables))), tables)

unfoldable pub get_route : Text → Tables → AdminReply × Tables
get_route id tables = elim (find_by_id id tables) [
  | none ↦ (answer_with 404 (admin_error (codes "Route not found")), tables)
  | some route ↦
      (answer_with 200 (route_with_policy route (find_by_route_id route.id tables)), tables)
]

-- `createRoute` up to its first query: the reply that ends it, or what it goes on to write.
unfoldable pub check_create : RouteBody → Tables → AdminReply ⊎ CreateRouteDto
check_create body tables = elim (parse_create_route body) [
  | none ↦ inl (answer_with 400 (admin_error (codes "Validation failed")))
  | some dto ↦ elim (find_by_name dto.name tables) [
    | some existing ↦
        inl (
          answer_with 409 (admin_error (codes "Route '" ++ (dto.name ++ codes "' already exists"))))
    | none ↦ inr dto
  ]
]

-- Its writes.
unfoldable pub write_create : Stamp → CreateRouteDto → Tables → AdminReply × Tables
unfolding error_handler
write_create stamp dto tables =
    let (made, tables') = insert_route stamp.row_id stamp.now dto tables in
    elim made [
      | thrown err ↦ (failed err, tables')
      | resolved route ↦ publish stamp (answer_with 201 (route_data route)) tables'
    ]

unfoldable pub create_route : Stamp → RouteBody → Tables → AdminReply × Tables
create_route stamp body tables = elim (check_create body tables) [
  | inl reply ↦ (reply, tables)
  | inr dto ↦ write_create stamp dto tables
]

unfoldable pub update_route : Stamp → Text → RouteChanges → Tables → AdminReply × Tables
unfolding error_handler
update_route stamp id body tables = elim (parse_update_route body) [
  | none ↦ (answer_with 400 (admin_error (codes "Validation failed")), tables)
  | some dto ↦
      let (updated, tables') = change_route id stamp.now dto tables in
      elim updated [
        | thrown err ↦ (failed err, tables')
        | resolved none ↦ (answer_with 404 (admin_error (codes "Route not found")), tables')
        | resolved (some route) ↦ publish stamp (answer_with 200 (route_data route)) tables'
      ]
]

unfoldable pub delete_route : Stamp → Text → Tables → AdminReply × Tables
delete_route stamp id tables =
    let (deleted, tables') = delete id tables in
    if not deleted
    then (answer_with 404 (admin_error (codes "Route not found")), tables')
    else publish stamp (answer_with 204 empty_payload) tables'

unfoldable pub list_policies : Tables → AdminReply × Tables
list_policies tables =
    (answer_with 200 (policies_data (all_policies tables) (length (all_policies tables))), tables)

unfoldable pub create_policy : Stamp → PolicyBody → Tables → AdminReply × Tables
unfolding error_handler
create_policy stamp body tables = elim (parse_create_policy body) [
  | none ↦ (answer_with 400 (admin_error (codes "Validation failed")), tables)
  | some dto ↦ elim (find_by_name dto.route tables) [
    | none ↦ (
      answer_with 404 (admin_error (codes "Route '" ++ (dto.route ++ codes "' not found"))),
      tables,
    )
    | some route ↦
        let (policy, tables') = upsert_policy stamp.row_id stamp.now route.id dto tables in
        elim policy [
          | thrown err ↦ (failed err, tables')
          | resolved written ↦ publish stamp (answer_with 201 (policy_data written)) tables'
        ]
  ]
]

unfoldable pub remove_policy : Stamp → Text → Tables → AdminReply × Tables
remove_policy stamp id tables =
    let (deleted, tables') = delete_policy id tables in
    if not deleted
    then (answer_with 404 (admin_error (codes "Policy not found")), tables')
    else publish stamp (answer_with 204 empty_payload) tables'

pub data AdminRequest : Type 0 where
  reads_routes reads_policies : AdminRequest
  reads_route : (id : Text) → AdminRequest
  creates_route : RouteBody → AdminRequest
  updates_route : (id : Text) (body : RouteChanges) → AdminRequest
  deletes_route : (id : Text) → AdminRequest
  creates_policy : PolicyBody → AdminRequest
  deletes_policy : (id : Text) → AdminRequest

-- The endpoint's handler.
unfoldable pub handle : Stamp → AdminRequest → Tables → AdminReply × Tables
handle stamp reads_routes = list_routes
handle stamp reads_policies = list_policies
handle stamp (reads_route id) = get_route id
handle stamp (creates_route body) = create_route stamp body
handle stamp (updates_route id body) = update_route stamp id body
handle stamp (deletes_route id) = delete_route stamp id
handle stamp (creates_policy body) = create_policy stamp body
handle stamp (deletes_policy id) = remove_policy stamp id

-- `!key || key !== env.ADMIN_API_KEY` negated
abbrev pub key_matches : Text → Option HeaderValue → Bool
key_matches admin_key (some (one (c ∷ key))) = text_eq (c ∷ key) admin_key
key_matches admin_key _ = false

-- Fastify's check of the body and the parameters of an endpoint against its schemas: the message of
-- its error, if there is one.
abbrev pub Validation : Type 0
Validation = AdminRequest → Option Text

-- Its error carries the status 400 and goes to `errorHandler`.
abbrev pub refused_with : Text → AdminReply
refused_with complaint =
    let (status, message) = error_handler (some 400) (error (codes "Error") complaint none) in
    answer_with status (admin_error message)

-- An endpoint: Fastify validates the request, then the hook checks the key, then the handler runs.
unfoldable pub admin :
    Validation → Text → Dict HeaderValue → Stamp → AdminRequest → Tables → AdminReply × Tables
unfolding handle text_eq lookup error_handler
admin validate admin_key headers stamp request tables = elim (validate request) [
  | some complaint ↦ (refused_with complaint, tables)
  | none ↦
      if key_matches admin_key (lookup (codes "x-api-key") headers)
      then handle stamp request tables
      else (answer_with 401 (admin_error (codes "Unauthorized — valid x-api-key required")), tables)
]
