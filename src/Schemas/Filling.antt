-- ===== src/Schemas/Filling.antt =====
-- A validation that accepts every body and fills in the defaults: the assumptions on Fastify's can
-- be met.
use ts_api_gateway.Common.{
  if◌then◌else◌, Bool-cases, ◌≡◌, sym, ap, ◌∙◌, inl, inr, Option, none, some, List, arith, Text,
  text_eq, text_eq_iff,
}
use ts_api_gateway.Proxy.{Outcome, resolved}
use ts_api_gateway.Schemas.{
  Json, Fields, field, get, Schema, object_schema, Properties, no_properties, property, schema_at,
  default_of, Validator,
}

abbrev put_missing : Text → Option Json → Fields → Fields
put_missing name none body = body
put_missing name (some v) body = elim (get name body) [ none ↦ field name v body | some w ↦ body ]

unfoldable pub fill : Properties → Fields → Fields
unfolding get
fill no_properties body = body
fill (property name schema properties) body =
    fill properties (put_missing name (default_of schema) body)

unfoldable pub accept : Schema → Fields → Outcome Fields
unfolding fill
accept (object_schema required properties) body = resolved (fill properties body)
accept _ body = resolved body

get-put_missing :
    (k : Text) (d : Option Json) (body : Fields) (name : Text)
    → get name (put_missing k d body)
      ≡ elim (get name body) [ some w ↦ some w | none ↦ if text_eq k name then d else none ]
unfolding get
get-put_missing k none body name = ground arith
get-put_missing k (some v) body name = ground (arith, text_eq_iff k name)

-- What a body has, it keeps.
fill-keeps :
    (properties : Properties) (body : Fields) (name : Text) (v : Json)
    → get name body ≡ some v
    → get name (fill properties body) ≡ some v
unfolding fill
fill-keeps no_properties body name v e = e
fill-keeps (property k schema properties) body name v e =
    fill-keeps properties (put_missing k (default_of schema) body) name v
      (ground (arith, e, get-put_missing k (default_of schema) body name))

fill-fills :
    (properties : Properties) (body : Fields) (name : Text) (schema : Schema) (v : Json)
    → schema_at name properties ≡ some schema
    → default_of schema ≡ some v
    → get name body ≡ none
    → get name (fill properties body) ≡ some v
unfolding fill schema_at
fill-fills no_properties body name schema v e d missing = cc
fill-fills (property k s properties) body name schema v e d missing =
    elim (Bool-cases (text_eq k name)) [
      | inl here_it_is ↦
          fill-keeps properties (put_missing k (default_of s) body) name v
            (ground (arith, e, d, missing, here_it_is, get-put_missing k (default_of s) body name))
      | inr elsewhere ↦
          fill-fills properties (put_missing k (default_of s) body) name schema v
            (ground (arith, e, elsewhere)) d
            (ground (arith, missing, elsewhere, get-put_missing k (default_of s) body name))
    ]

pub accept-fills :
    (required : List Text) (properties : Properties) (body filled : Fields)
    → accept (object_schema required properties) body ≡ resolved filled
    → (name : Text) (schema : Schema) (default_value : Json)
    → schema_at name properties ≡ some schema
    → default_of schema ≡ some default_value
    → get name body ≡ none
    → get name filled ≡ some default_value
unfolding accept
accept-fills required properties body filled e name schema v at_it d missing =
    let same : fill properties body ≡ filled = cc in
    ap (get name) (sym same) ∙ fill-fills properties body name schema v at_it d missing

abbrev pub filling : Validator
filling = record { validate = accept; fills = accept-fills }
