-- ===== src/Gateway.antt =====
-- src/middlewares, src/routes/proxy.routes.ts and the hooks of src/app.ts: the way of a request
-- through the gateway. Here are the request, the reply and the services that the parts share.
pub mod Auth
pub mod RateLimit
pub mod Cache
pub mod Handler
pub mod Pipeline
mod Samples
mod Tests
use ts_api_gateway.Common.{
  ℕ, Bool, ◌||◌, Option, none, some, List, [], ◌∷◌, Text, codes, text_eq, starts_with, split,
  lookup, put, Dict,
}
use ts_api_gateway.Models.{Route, Policy}
use ts_api_gateway.Proxy.{error, HeaderValue, one, many}

-- The variables of src/config/env.ts that the way of a request reads.
pub record Env : Type 0 where
  pub rate_limit_enabled : Bool
  pub rate_limit_default_rps : ℕ
  pub rate_limit_default_burst : ℕ
  pub feature_canary_releases : Bool
  pub cache_enabled : Bool
  pub cache_default_ttl_seconds : ℕ

-- `CachedConfig` of src/services/router/config-cache.ts.
pub record CachedConfig : Type 0 where
  pub routes : List Route
  pub policies : Dict Policy
  pub version : ℕ

-- The values of `requestContext`, with `none` for `undefined`.
pub record Context : Type 0 where
  pub trace_id : Text
  pub span_id : Option Text
  pub user_id : Option Text
  pub cache_key : Option Text
  pub cache_ttl : Option ℕ

-- What `req.body` holds: nothing, a buffer, a parsed object with its JSON text as bytes, or a
-- string with its bytes.
pub data Body : Type 0 where
  no_body : Body
  buffer object text : List ℕ → Body

pub record Request : Type 0 where
  pub method : Text
  pub url : Text
  pub headers : Dict HeaderValue
  pub ip : Option Text
  pub body : Body
  pub context : Context

-- What is sent: bytes, or an object with the fields that the code puts into it.
pub data Payload : Type 0 where
  bytes : List ℕ → Payload
  failure : (error trace_id : Text) → Payload
  too_many : (retry_after_seconds : ℕ) (trace_id : Text) → Payload
  no_route : (path trace_id : Text) → Payload

pub data HeaderField : Type 0 where
  number : ℕ → HeaderField
  value : HeaderValue → HeaderField

pub record Reply : Type 0 where
  pub status_code : ℕ
  pub headers : Dict HeaderField
  pub sent : Option Payload

abbrev pub fresh_reply : Reply
fresh_reply = record { status_code = 200; headers = []; sent = none }

-- `reply.header(name, value)`
abbrev pub set_header : Text → HeaderField → Reply → Reply
set_header name v reply = record reply { headers = put name v reply.headers }

-- `reply.status(code).send(payload)`
abbrev pub send : ℕ → Payload → Reply → Reply
send code payload reply = record reply { status_code = code; sent = some payload }

-- `req.url.split('?')[0] ?? '/'`
abbrev pub first_or : Text → List Text → Text
first_or d [] = d
first_or d (p ∷ ps) = p

unfoldable pub path_of : Text → Text
unfolding split
path_of url = first_or (codes "/") (split b'?' url)

-- The paths that the middlewares pass over.
unfoldable pub is_internal : Text → Bool
unfolding text_eq starts_with
is_internal path =
    text_eq path (codes "/healthz")
    || (text_eq path (codes "/readyz")
        || (text_eq path (codes "/metrics")
            || (starts_with path (codes "/docs") || starts_with path (codes "/admin"))))

-- A header with one value, which is a JavaScript string.
abbrev pub string_header : Text → Dict HeaderValue → Option Text
string_header name headers = elim (lookup name headers) [
  | none ↦ none
  | some v ↦ elim v [ one s ↦ some s | many ss ↦ none ]
]
