-- ===== src/Schemas/Policy.antt =====
-- src/schemas/policy.schema.ts.
use ts_api_gateway.Common.{false, none, some, [], ◌∷◌, codes}
use ts_api_gateway.Schemas.{
  Schema, integer_schema, boolean_schema, object_schema, array_schema, nullable, properties_of,
  text_schema, formatted, plain_integer, plain_boolean,
}

abbrev pub policy_object : Schema
policy_object = object_schema [] (
    properties_of (
      (codes "id", formatted (codes "uuid"))
      ∷ (codes "routeId", formatted (codes "uuid"))
      ∷ (codes "authRequired", plain_boolean)
      ∷ (codes "rateLimitRps", nullable plain_integer)
      ∷ (codes "rateLimitBurst", nullable plain_integer)
      ∷ (codes "createdAt", formatted (codes "date-time"))
      ∷ (codes "updatedAt", formatted (codes "date-time"))
      ∷ []))

abbrev pub create_policy_body : Schema
create_policy_body = object_schema (codes "route" ∷ []) (
    properties_of (
      (codes "route", text_schema)
      ∷ (codes "auth_required", boolean_schema (some false))
      ∷ (
        codes "rate_limit",
        object_schema (codes "rps" ∷ codes "burst" ∷ []) (
            properties_of (
              (codes "rps", integer_schema (some 1) none none)
              ∷ (codes "burst", integer_schema (some 1) none none)
              ∷ [])),
      )
      ∷ []))

abbrev pub list_policies_response : Schema
list_policies_response = object_schema [] (
    properties_of
      ((codes "data", array_schema policy_object) ∷ (codes "count", plain_integer) ∷ []))

abbrev pub created_policy_response : Schema
created_policy_response = object_schema [] (properties_of ((codes "data", policy_object) ∷ []))
