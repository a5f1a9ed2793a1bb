-- ===== src/Gateway/Pipeline/Safety.antt =====
-- A request that a hook turns away goes no further.
use ts_api_gateway.Common.{
  Option-cases, ◌≡◌, refl, ap, ◌∙◌, ◌⊎◌, inl, inr, true, false, none, some, arith, Text, codes,
}
use ts_api_gateway.Gateway.{
  Env, CachedConfig, Request, Payload, failure, too_many, Reply, fresh_reply, send, path_of,
  is_internal,
}
use ts_api_gateway.Gateway.Auth.{bearer_token, auth_middleware}
use ts_api_gateway.Gateway.Auth.Guard.{IsGuarded, Presents}
use ts_api_gateway.Gateway.Cache.{cache_on_send}
use ts_api_gateway.Gateway.Pipeline.{Services, pipeline, finish_with, from_rate_limit, from_auth}
use ts_api_gateway.Gateway.RateLimit.{retry_after, rate_limit_middleware}
use ts_api_gateway.Gateway.RateLimit.Limits.{verdict, rate_limit_middleware-verdict}
use ts_api_gateway.Proxy.{Outcome-cases}
use ts_api_gateway.Router.{MatchResult, match_route}
use ts_api_gateway.Trace.{trace_id_middleware}

module _ {W : Type 0} (services : Services W) (env : Env) (config : CachedConfig) where
  open services use {verify, check, store, backend, serialise}

  -- The answer of the authentication to a guarded request with no valid token.
  auth_rejects :
      (req : Request) (reply : Reply) (w : W)
      → IsGuarded config req
      → ((sub : Text) → ¬ Presents verify req w sub)
      → (p : Payload) × (w' : W) × (auth_middleware verify config req reply w
          ≡ ((req, send 401 p reply), w'))
        × ((w' ≡ w) ⊎ ((token : Text) × (w' ≡ (verify token w).1)))
  unfolding auth_middleware
  auth_rejects req reply w g invalid = elim (Option-cases (bearer_token req.headers)) [
    | inl missing ↦ (
      failure (codes "Unauthorized — Bearer token required") req.context.trace_id,
      w,
      ground (arith, g.public_path, g.matched, g.required, missing),
      inl refl,
    )
    | inr (token, carried) ↦ elim (Outcome-cases (verify token w).0) [
      | inl (sub, good) ↦
          absurd (invalid sub (record { token = token; carried = carried; verified = good }))
      | inr (e, bad) ↦ (
        failure (codes "Unauthorized — invalid or expired token") req.context.trace_id,
        (verify token w).1,
        ground (arith, g.public_path, g.matched, g.required, carried, bad),
        inr (token, refl),
      )
    ]
  ]

  finish_unmarked :
      (req : Request) (reply : Reply) (w : W)
      → req.context.cache_key ≡ none
      → finish_with services env config req (reply, w) ≡ (reply, w)
  unfolding finish_with cache_on_send
  finish_unmarked req reply w h = ground (arith, h)

  from_auth_sent :
      (req req' : Request) (reply reply' : Reply) (w w' : W) (p : Payload)
      → auth_middleware verify config req reply w ≡ ((req', reply'), w')
      → reply'.sent ≡ some p
      → from_auth services env config req reply w
        ≡ finish_with services env config req' (reply', w')
  unfolding from_auth
  from_auth_sent req req' reply reply' w w' p e h = ground (arith, e, h)

  pipeline_lem :
      (random_hex span_id : Text) (req : Request) (w : W)
      → pipeline services env config random_hex span_id req w
        ≡ from_auth services env config (trace_id_middleware random_hex span_id req) fresh_reply w
  unfolding pipeline
  pipeline_lem random_hex span_id req w = refl

  world_cases :
      (result : Reply × W) (w w' : W) (reply : Reply)
      → result ≡ (reply, w')
      → (w' ≡ w) ⊎ ((token : Text) × (w' ≡ (verify token w).1))
      → (result.1 ≡ w) ⊎ ((token : Text) × (result.1 ≡ (verify token w).1))
  world_cases result w w' reply e (inl same) = inl (ap (λ (r : Reply × W). r.1) e ∙ same)
  world_cases result w w' reply e (inr (token, h)) = inr (token, ap (λ (r : Reply × W). r.1) e ∙ h)

  -- A request for a route with `auth_required` that carries no valid token, and that no hook has
  -- marked for the cache, is answered with 401. Limiter, cache and upstream are not asked: the world
  -- is as before, or as the verification of the token left it.
  pub pipeline-unauthorized :
      (random_hex span_id : Text) (req : Request) (w : W)
      → IsGuarded config (trace_id_middleware random_hex span_id req)
      → ((sub : Text) → ¬ Presents verify (trace_id_middleware random_hex span_id req) w sub)
      → (trace_id_middleware random_hex span_id req).context.cache_key ≡ none
      → ((pipeline services env config random_hex span_id req w).0.status_code ≡ 401)
        × (((pipeline services env config random_hex span_id req w).1 ≡ w)
            ⊎ ((token : Text) × ((pipeline services env config random_hex span_id req w).1
                  ≡ (verify token w).1)))
  pipeline-unauthorized random_hex span_id req w g invalid unmarked =
      let traced = trace_id_middleware random_hex span_id req in
      let (p, w', e, world) = auth_rejects traced fresh_reply w g invalid in
      let whole =
        pipeline_lem random_hex span_id req w
        ∙ from_auth_sent traced traced fresh_reply (send 401 p fresh_reply) w w' p e refl
        ∙ finish_unmarked traced (send 401 p fresh_reply) w' unmarked in
      (
        ap (λ (r : Reply × W). r.0.status_code) whole,
        world_cases _ w w' (send 401 p fresh_reply) whole world,
      )

  from_auth_passed :
      (req req' : Request) (reply reply' : Reply) (w w' : W)
      → auth_middleware verify config req reply w ≡ ((req', reply'), w')
      → reply'.sent ≡ none
      → from_auth services env config req reply w
        ≡ from_rate_limit services env config req' reply' w'
  unfolding from_auth
  from_auth_passed req req' reply reply' w w' e h = ground (arith, e, h)

  from_rate_limit_sent :
      (req : Request) (reply : Reply) (w : W) (p : Payload)
      → (rate_limit_middleware check backend.now env config req reply w).0.sent ≡ some p
      → from_rate_limit services env config req reply w
        ≡ finish_with services env config req
            (rate_limit_middleware check backend.now env config req reply w)
  unfolding from_rate_limit
  from_rate_limit_sent req reply w p h = ground (arith, h)

  -- The refusal of the limiter.
  refused :
      (req : Request) (reply : Reply) (w : W) (m : MatchResult)
      → env.rate_limit_enabled ≡ true
      → is_internal (path_of req.url) ≡ false
      → match_route (path_of req.url) config.routes ≡ some m
      → (verdict check backend.now env config req reply w m).0.allowed ≡ false
      → let limited = rate_limit_middleware check backend.now env config req reply w in
        let result = verdict check backend.now env config req reply w m in
        (limited.0.status_code ≡ 429)
        × (limited.0.sent
            ≡ some (too_many (retry_after result.0 (backend.now result.1)) req.context.trace_id))
        × (limited.1 ≡ result.1)
  refused req reply w m on public matched no_room =
      elim (rate_limit_middleware-verdict check backend.now env config req reply w m on public
        matched).1 [
          | inl (allowed, _) ↦ cc (allowed, no_room)
          | inr (_, status, sent) ↦ (
            status,
            sent,
            (rate_limit_middleware-verdict check backend.now env config req reply w m on public
                matched).0,
          )
        ]

  -- With limiting on, a request for a public path that passes the authentication, matches a route, is
  -- not marked for the cache and is refused by the limiter is answered with 429, and neither cache
  -- nor upstream is asked: the world is as the limiter left it.
  pub pipeline-limited :
      (random_hex span_id : Text) (req req' : Request) (reply' : Reply) (w w' : W) (m : MatchResult)
      → auth_middleware verify config (trace_id_middleware random_hex span_id req) fresh_reply w
        ≡ ((req', reply'), w')
      → reply'.sent ≡ none
      → env.rate_limit_enabled ≡ true
      → is_internal (path_of req'.url) ≡ false
      → match_route (path_of req'.url) config.routes ≡ some m
      → (verdict check backend.now env config req' reply' w' m).0.allowed ≡ false
      → req'.context.cache_key ≡ none
      → ((pipeline services env config random_hex span_id req w).0.status_code ≡ 429)
        × ((pipeline services env config random_hex span_id req w).1
            ≡ (verdict check backend.now env config req' reply' w' m).1)
  pipeline-limited random_hex span_id req req' reply' w w' m e unsent on public matched no_room
        unmarked =
      let traced = trace_id_middleware random_hex span_id req in
      let limited = rate_limit_middleware check backend.now env config req' reply' w' in
      let (status, sent, world) = refused req' reply' w' m on public matched no_room in
      let whole =
        pipeline_lem random_hex span_id req w
        ∙ from_auth_passed traced req' fresh_reply reply' w w' e unsent
        ∙ from_rate_limit_sent req' reply' w' _ sent
        ∙ finish_unmarked req' limited.0 limited.1 unmarked in
      (
        ap (λ (r : Reply × W). r.0.status_code) whole ∙ status,
        ap (λ (r : Reply × W). r.1) whole ∙ world,
      )
