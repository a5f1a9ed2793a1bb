-- ===== src/Admin/Bodies.antt =====
-- The types of the zod schemas in src/controllers/route.controller.ts: from the JSON body to its
-- fields, and the endpoints behind the schemas that src/routes/admin.routes.ts gives Fastify. A
-- field that zod does not name is dropped.
use ts_api_gateway.Admin.{admin_error, AdminReply, answer_with, Stamp, create_route, update_route}
use ts_api_gateway.Admin.Validation.{RouteBody, RouteChanges}
use ts_api_gateway.Common.{◌>>=◌, ℕ, Bool, Option, none, some, Text, codes}
use ts_api_gateway.ErrorHandler.{error_handler}
use ts_api_gateway.Proxy.{Thrown, resolved, thrown}
use ts_api_gateway.Schemas.{
  Json, bool_json, number_json, text_json, object_json, Fields, get, Validator,
}
use ts_api_gateway.Schemas.Route.{create_route_body, update_route_body}
use ts_api_gateway.Storage.{Tables}

-- `.optional()` around a type: a field that is left out is accepted, and stays so.
abbrev pub typed {ℓ} : {A : Type ℓ} → (Json → Option A) → Option Json → Option (Option A)
typed p none = some none
typed p (some j) = p j >>= λ a. some (some a)

abbrev pub needed {ℓ} : {A : Type ℓ} → (Json → Option A) → Option Json → Option A
needed p none = none
needed p (some j) = p j

abbrev pub as_text : Json → Option Text
as_text (text_json s) = some s
as_text _ = none

abbrev pub as_boolean : Json → Option Bool
as_boolean (bool_json b) = some b
as_boolean _ = none

-- `z.number().int()`; the fields have a lower bound of 0 or more.
abbrev pub as_integer : Json → Option ℕ
as_integer (number_json n) = some n
as_integer _ = none

abbrev pub as_match : Json → Option Text
as_match (object_json fields) = needed as_text (get (codes "path_prefix") fields)
as_match _ = none

abbrev pub as_upstream : Json → Option (Text × ℕ)
as_upstream (object_json fields) = do
  host ← needed as_text (get (codes "host") fields)
  port ← needed as_integer (get (codes "port") fields)
  some (host, port)
as_upstream _ = none

abbrev pub as_timeouts : Json → Option (Option ℕ × Option ℕ)
as_timeouts (object_json fields) = do
  connect ← typed as_integer (get (codes "connect") fields)
  request ← typed as_integer (get (codes "request") fields)
  some (connect, request)
as_timeouts _ = none

-- `createRouteSchema`. No canary is read.
unfoldable pub decode_route : Fields → Option RouteBody
unfolding get
decode_route fields = do
  strip_path ← typed as_boolean (get (codes "strip_path") fields)
  retries ← typed as_integer (get (codes "retries") fields)
  name ← needed as_text (get (codes "name") fields)
  path_prefix ← needed as_match (get (codes "match") fields)
  upstream ← needed as_upstream (get (codes "upstream") fields)
  timeouts ← typed as_timeouts (get (codes "timeouts_ms") fields)
  some (record {
    name = name;
    path_prefix = path_prefix;
    host = upstream.0;
    port = upstream.1;
    strip_path = strip_path;
    connect = timeouts >>= λ t. t.0;
    request = timeouts >>= λ t. t.1;
    retries = retries;
    canary = none;
  })

-- `updateRouteSchema`
unfoldable pub decode_changes : Fields → Option RouteChanges
unfolding get
decode_changes fields = do
  strip_path ← typed as_boolean (get (codes "strip_path") fields)
  retries ← typed as_integer (get (codes "retries") fields)
  name ← typed as_text (get (codes "name") fields)
  path_prefix ← typed as_match (get (codes "match") fields)
  upstream ← typed as_upstream (get (codes "upstream") fields)
  timeouts ← typed as_timeouts (get (codes "timeouts_ms") fields)
  enabled ← typed as_boolean (get (codes "enabled") fields)
  some (record {
    name = name;
    path_prefix = path_prefix;
    upstream = upstream;
    strip_path = strip_path;
    connect = timeouts >>= λ t. t.0;
    request = timeouts >>= λ t. t.1;
    retries = retries;
    enabled = enabled;
    canary = none;
  })

-- The reply to a body that Fastify's validation refuses: its error has the status 400.
abbrev pub invalid : Thrown → AdminReply
invalid err =
    let (status, message) = error_handler (some 400) err in answer_with status (admin_error message)

module _ (validator : Validator) (stamp : Stamp) where
  -- `POST /admin/routes`
  unfoldable pub post_route : Fields → Tables → AdminReply × Tables
  unfolding decode_route
  post_route body tables = elim (validator.validate create_route_body body) [
    | thrown err ↦ (invalid err, tables)
    | resolved filled ↦ elim (decode_route filled) [
      | none ↦ (answer_with 400 (admin_error (codes "Validation failed")), tables)
      | some fields ↦ create_route stamp fields tables
    ]
  ]

  -- `PUT /admin/routes/:id`
  unfoldable pub put_route : Text → Fields → Tables → AdminReply × Tables
  unfolding decode_changes
  put_route id body tables = elim (validator.validate update_route_body body) [
    | thrown err ↦ (invalid err, tables)
    | resolved filled ↦ elim (decode_changes filled) [
      | none ↦ (answer_with 400 (admin_error (codes "Validation failed")), tables)
      | some wanted ↦ update_route stamp id wanted tables
    ]
  ]
