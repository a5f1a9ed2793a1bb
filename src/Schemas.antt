-- ===== src/Schemas.antt =====
-- src/schemas: the JSON schemas of the admin API as data, without their texts (descriptions and
-- examples). Fastify compiles them: the schema of a body checks it and fills in its defaults, and
-- the schema of a reply picks the fields that are written.
pub mod Route
pub mod Policy
pub mod Filling
use ts_api_gateway.Common.{
  if◌then◌else◌, ℕ, ◌≡◌, Bool, Option, none, some, List, [], ◌∷◌, Text, text_eq,
}
use ts_api_gateway.Proxy.{Outcome, resolved}

-- A body as it comes from the JSON parser. `other_json` is a number that is no natural number, or an
-- array: no field of these bodies takes one.
mutual
  pub data Json : Type 0 where
    null_json : Json
    bool_json : Bool → Json
    number_json : ℕ → Json
    text_json : Text → Json
    other_json : Json
    object_json : Fields → Json

  pub data Fields : Type 0 where
    no_fields : Fields
    field : Text → Json → Fields → Fields

-- `body[name]`
unfoldable pub get : Text → Fields → Option Json
unfolding text_eq
get name no_fields = none
get name (field k v fields) = if text_eq k name then some v else get name fields

-- `nullable` is a list of types with `null` in it, or a `oneOf` with the type `null`.
mutual
  pub data Schema : Type 0 where
    string_schema : (min_length max_length : Option ℕ) (pattern_of format : Option Text) → Schema
    enum_schema : List Text → Schema
    integer_schema : (minimum maximum default_value : Option ℕ) → Schema
    boolean_schema : (default_value : Option Bool) → Schema
    object_schema : (required : List Text) (properties : Properties) → Schema
    array_schema : (items : Schema) → Schema
    nullable : Schema → Schema

  pub data Properties : Type 0 where
    no_properties : Properties
    property : Text → Schema → Properties → Properties

-- `{ name: schema, ... }`, and `{ ...properties, ... }`.
abbrev pub onto_properties : List (Text × Schema) → Properties → Properties
onto_properties [] rest = rest
onto_properties ((name, schema) ∷ named) rest = property name schema (onto_properties named rest)

abbrev pub properties_of : List (Text × Schema) → Properties
properties_of named = onto_properties named no_properties

unfoldable pub schema_at : Text → Properties → Option Schema
unfolding text_eq
schema_at name no_properties = none
schema_at name (property k schema properties) =
    if text_eq k name then some schema else schema_at name properties

-- `default`
abbrev pub default_of : Schema → Option Json
default_of (integer_schema _ _ (some n)) = some (number_json n)
default_of (boolean_schema (some b)) = some (bool_json b)
default_of _ = none

abbrev pub text_schema : Schema
text_schema = string_schema none none none none

abbrev pub formatted : Text → Schema
formatted format = string_schema none none none (some format)

abbrev pub plain_integer : Schema
plain_integer = integer_schema none none none

abbrev pub plain_boolean : Schema
plain_boolean = boolean_schema none

-- What Fastify's validation of a body does, as far as the code relies on it: it refuses the body
-- with an error, or hands it on, and then a property that the body leaves out and for which the
-- schema has a default has that default (the option `useDefaults`, which Fastify sets).
pub record Validator : Type 0 where
  pub validate : Schema → Fields → Outcome Fields
  pub fills :
      (required : List Text) (properties : Properties) (body filled : Fields)
      → validate (object_schema required properties) body ≡ resolved filled
      → (name : Text) (schema : Schema) (default_value : Json)
      → schema_at name properties ≡ some schema
      → default_of schema ≡ some default_value
      → get name body ≡ none
      → get name filled ≡ some default_value
