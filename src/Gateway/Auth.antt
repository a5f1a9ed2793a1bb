-- ===== src/Gateway/Auth.antt =====
-- src/middlewares/auth.middleware.ts and verifyToken of src/services/auth/jwt.service.ts. The
-- libraries jsonwebtoken and jwks-rsa are parameters, over a state that stands for their caches.
pub mod Guard
use ts_api_gateway.Common.{
  if◌then◌else◌, drop, Bool, false, not, Option, none, some, [], ◌∷◌, Text, codes, text_eq,
  starts_with, lookup, Dict,
}
use ts_api_gateway.Gateway.{
  CachedConfig, Request, failure, Reply, send, path_of, is_internal, string_header,
}
use ts_api_gateway.Models.{Policy}
use ts_api_gateway.Proxy.{Thrown, error, Outcome, resolved, thrown, HeaderValue}
use ts_api_gateway.Router.{MatchResult, match_route}

pub record JwtLibrary (W : Type 0) : Type 0 where
  -- `jwt.decode(token, { complete: true })`: the header's key id, unless the token is malformed.
  pub decode : Text → Option (Option Text)
  -- `getSigningKey`: an error, no key, or the public key.
  pub signing_key : Option Text → W → Outcome (Option Text) × W
  -- `jwt.verify` with the audience, the issuer and RS256: an error, or the payload's `sub`.
  pub verify : Text → Text → Outcome Text

abbrev malformed : Thrown
malformed = error (codes "Error") (codes "Malformed JWT — cannot decode header") none

abbrev no_signing_key : Thrown
no_signing_key = error (codes "Error") (codes "No signing key returned from JWKS") none

abbrev no_jwks_uri : Thrown
no_jwks_uri = error (codes "Error") (codes "JWKS_URI is not configured — cannot validate JWTs") none

-- What follows the fetch of the key.
verify_with : {W : Type 0} → JwtLibrary W → Text → Outcome (Option Text) → Outcome Text
verify_with jwt token (thrown e) = thrown e
verify_with jwt token (resolved none) = thrown no_signing_key
verify_with jwt token (resolved (some [])) = thrown no_signing_key
verify_with jwt token (resolved (some (c ∷ cs))) = jwt.verify token (c ∷ cs)

-- The `sub` of a valid token. `has_jwks_uri` is whether the environment names the key server.
unfoldable pub verify_token : {W : Type 0} → JwtLibrary W → Bool → Text → W → Outcome Text × W
unfolding verify_with
verify_token jwt has_jwks_uri token w = elim (jwt.decode token) [
  | none ↦ (thrown malformed, w)
  | some kid ↦
      if not has_jwks_uri
      then (thrown no_jwks_uri, w)
      else let (key, w') = jwt.signing_key kid w in (verify_with jwt token key, w')
]

-- `policies.get(match.route.id)`
abbrev pub policy_of : CachedConfig → MatchResult → Option Policy
policy_of config match = lookup match.route.id config.policies

-- `!policy?.authRequired` negated
abbrev pub auth_required : Option Policy → Bool
auth_required none = false
auth_required (some policy) = policy.auth_required

-- The token behind `Bearer `; an absent or empty header has none.
unfoldable pub bearer_token : Dict HeaderValue → Option Text
unfolding starts_with lookup text_eq
bearer_token headers = elim (string_header (codes "authorization") headers) [
  | none ↦ none
  | some header ↦ if starts_with header (codes "Bearer ") then some (drop 7 header) else none
]

abbrev pub with_user : Text → Request → Request
with_user sub req = record req { context = record req.context { user_id = some sub } }

-- The outcome of the verification.
admit : Request → Reply → Outcome Text → Request × Reply
admit req reply (resolved sub) = (with_user sub req, reply)
admit req reply (thrown e) = (
  req,
  send 401 (failure (codes "Unauthorized — invalid or expired token") req.context.trace_id) reply,
)

module _ {W : Type 0} (verify : Text → W → Outcome Text × W) (config : CachedConfig) where
  unfoldable pub auth_middleware : Request → Reply → W → (Request × Reply) × W
  unfolding admit
  auth_middleware req reply w =
      let path = path_of req.url in
      if is_internal path then ((req, reply), w) else elim (match_route path config.routes) [
        | none ↦ ((req, reply), w)
        | some match ↦
            if not (auth_required (policy_of config match))
            then ((req, reply), w)
            else elim (bearer_token req.headers) [
              | none ↦ (
                (
                  req,
                  send 401
                      (failure (codes "Unauthorized — Bearer token required") req.context.trace_id)
                      reply,
                ),
                w,
              )
              | some token ↦ let (out, w') = verify token w in (admit req reply out, w')
            ]
      ]
