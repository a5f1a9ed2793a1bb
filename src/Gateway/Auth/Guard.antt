-- ===== src/Gateway/Auth/Guard.antt =====
-- Who gets past the authentication.
use ts_api_gateway.Common.{
  Option-cases, ◌≡◌, refl, sym, ◌∙◌, ◌≢◌, ◌↔◌, ◌⊎◌, inl, inr, Bool, true, false, Option, none, some,
  [], ◌∷◌, arith, Text,
}
use ts_api_gateway.Gateway.{CachedConfig, Request, Reply, path_of, is_internal}
use ts_api_gateway.Gateway.Auth.{
  JwtLibrary, verify_token, policy_of, auth_required, bearer_token, auth_middleware, malformed,
  no_jwks_uri, verify_with,
}
use ts_api_gateway.Migrations.Applied.{missing}
use ts_api_gateway.Proxy.{Outcome, resolved, thrown, Outcome-cases}
use ts_api_gateway.Router.{MatchResult, match_route}

-- A route with `auth_required` matches the request's path, outside the paths that are passed over.
pub record IsGuarded (config : CachedConfig) (req : Request) : Type 0 where
  pub match : MatchResult
  pub public_path : is_internal (path_of req.url) ≡ false
  pub matched : match_route (path_of req.url) config.routes ≡ some match
  pub required : auth_required (policy_of config match) ≡ true

-- The request carries a Bearer token that the verification resolves to `sub`.
pub record Presents {W : Type 0} (verify : Text → W → Outcome Text × W) (req : Request) (w : W)
    (sub : Text) : Type 0 where
  pub token : Text
  pub carried : bearer_token req.headers ≡ some token
  pub verified : (verify token w).0 ≡ resolved sub

module _ {W : Type 0} (verify : Text → W → Outcome Text × W) (config : CachedConfig) (req : Request)
    (reply : Reply) (w : W) where
  -- The request and the reply that the middleware leaves.
  abbrev pub left_request : Request
  left_request = (auth_middleware verify config req reply w).0.0

  abbrev pub left_reply : Reply
  left_reply = (auth_middleware verify config req reply w).0.1

  -- On a guarded route a request that carries no valid token is answered with 401, and one that
  -- carries a valid token goes on with the token's subject as its user and an untouched reply.
  pub auth_middleware-guarded :
      IsGuarded config req
      → (((sub : Text) → ¬ Presents verify req w sub)
          × (left_reply.status_code ≡ 401)
          × (left_reply.sent ≢ none))
        ⊎ ((sub : Text) × Presents verify req w sub
            × (left_request.context.user_id ≡ some sub)
            × (left_reply ≡ reply))
  unfolding auth_middleware
  auth_middleware-guarded g = elim (Option-cases (bearer_token req.headers)) [
    | inl missing ↦ inl (
      (λ sub p. cc (p.carried, missing)),
      ground (arith, g.public_path, g.matched, g.required, missing),
      ground (arith, g.public_path, g.matched, g.required, missing),
    )
    | inr (token, carried) ↦ elim (Outcome-cases (verify token w).0) [
      | inl (sub, good) ↦ inr (
        sub,
        record { token = token; carried = carried; verified = good },
        ground (arith, g.public_path, g.matched, g.required, carried, good),
        ground (arith, g.public_path, g.matched, g.required, carried, good),
      )
      | inr (e, bad) ↦ inl (
        (λ sub p. ground (arith, p.carried, p.verified, carried, bad)),
        ground (arith, g.public_path, g.matched, g.required, carried, bad),
        ground (arith, g.public_path, g.matched, g.required, carried, bad),
      )
    ]
  ]

  -- What the middleware passes over: internal paths, unmatched paths and routes without
  -- `auth_required` go on unchanged, with no call of the verification.
  pub auth_middleware-unguarded :
      (is_internal (path_of req.url) ≡ true)
        ⊎ (match_route (path_of req.url) config.routes ≡ none)
        ⊎ ((m : MatchResult) × (match_route (path_of req.url) config.routes ≡ some m)
            × (auth_required (policy_of config m) ≡ false))
      → auth_middleware verify config req reply w ≡ ((req, reply), w)
  unfolding auth_middleware
  auth_middleware-unguarded (inl internal) = ground (arith, internal)
  auth_middleware-unguarded (inr (inl unmatched)) = ground (arith, unmatched)
  auth_middleware-unguarded (inr (inr (m, matched, open_to_all))) =
      ground (arith, matched, open_to_all)

verify_with_iff :
    {W : Type 0} (jwt : JwtLibrary W) (token sub : Text) (fetched : Outcome (Option Text))
    → (verify_with jwt token fetched ≡ resolved sub) ↔ (
        (key : Text) × (fetched ≡ resolved (some key))
        × (key ≢ [])
        × (jwt.verify token key ≡ resolved sub))
unfolding verify_with
verify_with_iff jwt token sub (thrown e) = (λ h. cc h, λ h. cc (h.1))
verify_with_iff jwt token sub (resolved none) = (λ h. cc h, λ h. cc (h.1))
verify_with_iff jwt token sub (resolved (some [])) = (λ h. cc h, λ h. absurd (h.2 (cc (h.1))))
verify_with_iff jwt token sub (resolved (some (c ∷ cs))) =
    (λ h. (c ∷ cs, refl, (λ e. cc e), h), λ h. ground (arith, h.1, h.3))

module _ {W : Type 0} (jwt : JwtLibrary W) (token : Text) (w : W) where
  verify_token-malformed :
      (has_jwks_uri : Bool)
      → jwt.decode token ≡ none
      → (verify_token jwt has_jwks_uri token w).0 ≡ thrown malformed
  unfolding verify_token
  verify_token-malformed has_jwks_uri bad = ground (arith, bad)

  verify_token_no_uri :
      (kid : Option Text)
      → jwt.decode token ≡ some kid
      → (verify_token jwt false token w).0 ≡ thrown no_jwks_uri
  unfolding verify_token
  verify_token_no_uri kid e = ground (arith, e)

  verify_token_with_key :
      (kid : Option Text)
      → jwt.decode token ≡ some kid
      → (verify_token jwt true token w).0 ≡ verify_with jwt token (jwt.signing_key kid w).0
  unfolding verify_token
  verify_token_with_key kid e = ground (arith, e)

-- A token is accepted exactly when it decodes, the environment names a key server, the server gives
-- a non-empty key for the token's key id, and the library verifies the token with that key.
pub verify_token-resolved_iff :
    {W : Type 0} (jwt : JwtLibrary W) (has_jwks_uri : Bool) (token sub : Text) (w : W)
    → ((verify_token jwt has_jwks_uri token w).0 ≡ resolved sub) ↔ (
        (kid : Option Text) × (key : Text) × (jwt.decode token ≡ some kid)
        × (has_jwks_uri ≡ true)
        × ((jwt.signing_key kid w).0 ≡ resolved (some key))
        × (key ≢ [])
        × (jwt.verify token key ≡ resolved sub))
verify_token-resolved_iff jwt false token sub w = elim (Option-cases (jwt.decode token)) [
  | inl bad ↦ (λ h. cc (verify_token-malformed jwt token w false bad, h), λ h. cc h.3)
  | inr (kid, e) ↦ (λ h. cc (verify_token_no_uri jwt token w kid e, h), λ h. cc h.3)
]
verify_token-resolved_iff jwt true token sub w = elim (Option-cases (jwt.decode token)) [
  | inl bad ↦ (λ h. cc (verify_token-malformed jwt token w true bad, h), λ h. cc (bad, h.2))
  | inr (kid, e) ↦
      let step = verify_token_with_key jwt token w kid e in
      (
        λ h.
            let (key, fetched, some_key, good) =
              (verify_with_iff jwt token sub (jwt.signing_key kid w).0).0 (sym step ∙ h) in
            (kid, key, e, refl, fetched, some_key, good),
        λ h.
            verify_token_with_key jwt token w h.0 h.2
            ∙ (verify_with_iff jwt token sub (jwt.signing_key h.0 w).0).1 (h.1, h.4, h.5, h.6),
      )
]
