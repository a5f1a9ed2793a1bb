-- ===== src/Schemas/Route.antt =====
-- src/schemas/route.schema.ts and the parameter schema of src/schemas/common.schema.ts.
use ts_api_gateway.Common.{false, none, some, List, [], ◌∷◌, Text, codes}
use ts_api_gateway.Schemas.{
  Schema, string_schema, integer_schema, boolean_schema, object_schema, array_schema, nullable,
  Properties, onto_properties, properties_of, text_schema, formatted, plain_integer, plain_boolean,
}

-- `uuidParam`
abbrev pub uuid_param : Schema
uuid_param =
    object_schema (codes "id" ∷ []) (properties_of ((codes "id", formatted (codes "uuid")) ∷ []))

abbrev pub error_response : Schema
error_response = object_schema (codes "error" ∷ []) (
    properties_of ((codes "error", text_schema) ∷ (codes "traceId", formatted (codes "uuid")) ∷ []))

abbrev route_properties : List (Text × Schema)
route_properties =
    (codes "id", formatted (codes "uuid"))
    ∷ (codes "name", text_schema)
    ∷ (codes "pathPrefix", text_schema)
    ∷ (codes "upstreamHost", text_schema)
    ∷ (codes "upstreamPort", integer_schema (some 1) (some 65535) none)
    ∷ (codes "stripPath", plain_boolean)
    ∷ (codes "connectTimeoutMs", plain_integer)
    ∷ (codes "requestTimeoutMs", plain_integer)
    ∷ (codes "retries", integer_schema (some 0) (some 10) none)
    ∷ (codes "enabled", plain_boolean)
    ∷ (codes "createdAt", formatted (codes "date-time"))
    ∷ (codes "updatedAt", formatted (codes "date-time"))
    ∷ []

abbrev pub route_object : Schema
route_object = object_schema [] (properties_of route_properties)

abbrev create_properties : List (Text × Schema)
create_properties =
    (codes "name", string_schema (some 1) (some 255) (some (codes "^[a-z0-9-_]+$")) none)
    ∷ (
      codes "match",
      object_schema (codes "path_prefix" ∷ [])
          (properties_of ((codes "path_prefix", text_schema) ∷ [])),
    )
    ∷ (
      codes "upstream",
      object_schema (codes "host" ∷ codes "port" ∷ []) (
          properties_of (
            (codes "host", text_schema)
            ∷ (codes "port", integer_schema (some 1) (some 65535) none)
            ∷ [])),
    )
    ∷ (codes "strip_path", boolean_schema (some false))
    ∷ (
      codes "timeouts_ms",
      object_schema [] (
          properties_of (
            (codes "connect", integer_schema (some 1) (some 30000) none)
            ∷ (codes "request", integer_schema (some 1) (some 60000) none)
            ∷ [])),
    )
    ∷ (codes "retries", integer_schema (some 0) (some 10) (some 0))
    ∷ []

abbrev pub create_route_body : Schema
create_route_body =
    object_schema (codes "name" ∷ codes "match" ∷ codes "upstream" ∷ [])
      (properties_of create_properties)

-- The properties of a creation, defaults included, and `enabled`.
abbrev pub update_route_properties : Properties
update_route_properties =
    onto_properties create_properties (properties_of ((codes "enabled", plain_boolean) ∷ []))

abbrev pub update_route_body : Schema
update_route_body = object_schema [] update_route_properties

abbrev pub list_routes_response : Schema
list_routes_response = object_schema [] (
    properties_of ((codes "data", array_schema route_object) ∷ (codes "count", plain_integer) ∷ []))

abbrev pub single_route_response : Schema
single_route_response = object_schema [] (
    properties_of (
      (
        codes "data",
        object_schema [] (
            onto_properties route_properties (
              properties_of (
                (
                  codes "policy",
                  nullable (
                      object_schema [] (
                        properties_of (
                          (codes "id", formatted (codes "uuid"))
                          ∷ (codes "authRequired", plain_boolean)
                          ∷ (codes "rateLimitRps", nullable plain_integer)
                          ∷ (codes "rateLimitBurst", nullable plain_integer)
                          ∷ []))),
                )
                ∷ []))),
      )
      ∷ []))

abbrev pub created_route_response : Schema
created_route_response = object_schema [] (properties_of ((codes "data", route_object) ∷ []))
