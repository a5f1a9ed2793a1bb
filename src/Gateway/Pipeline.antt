-- ===== src/Gateway/Pipeline.antt =====
-- The hooks of src/app.ts in their order, and the handler behind them. A hook that sends a reply
-- ends the way of the request; the `onSend` hook sees every reply.
pub mod Safety
use ts_api_gateway.Common.{ℕ, none, some, Text}
use ts_api_gateway.Gateway.{Env, CachedConfig, Request, Payload, Reply, fresh_reply}
use ts_api_gateway.Gateway.Auth.{auth_middleware}
use ts_api_gateway.Gateway.Cache.{CacheStore, cache_middleware, Outgoing, other, cache_on_send}
use ts_api_gateway.Gateway.Handler.{Backend, proxy_handler}
use ts_api_gateway.Gateway.RateLimit.{rate_limit_middleware}
use ts_api_gateway.Proxy.{Outcome}
use ts_api_gateway.RateLimiter.{RateLimitResult}
use ts_api_gateway.Trace.{trace_id_middleware}

pub record Services (W : Type 0) : Type 0 where
  -- `verifyToken`
  pub verify : Text → W → Outcome Text × W
  -- `checkRateLimit`
  pub check : Text → Text → ℕ → ℕ → W → RateLimitResult × W
  pub store : CacheStore W
  pub backend : Backend W
  -- Fastify's serialisation of a payload before `onSend`.
  pub serialise : Payload → Outgoing

abbrev outgoing : (Payload → Outgoing) → Reply → Outgoing
outgoing serialise reply = elim reply.sent [ none ↦ other | some p ↦ serialise p ]

module _ {W : Type 0} (services : Services W) (env : Env) (config : CachedConfig) where
  open services use {verify, check, store, backend, serialise}

  -- `onSend`, and the reply on its way.
  finish_with : Request → Reply × W → Reply × W
  finish_with req (reply, w) = (reply, cache_on_send store req reply (outgoing serialise reply) w)

  -- The last hook and the handler.
  from_cache : Request → Reply → W → Reply × W
  from_cache req reply w =
      let ((req', reply'), w') = cache_middleware store env config req reply w in
      elim reply'.sent [
        | some p ↦ finish_with req' (reply', w')
        | none ↦ finish_with req' (proxy_handler backend env config req' reply' w')
      ]

  from_rate_limit : Request → Reply → W → Reply × W
  from_rate_limit req reply w =
      let (reply', w') = rate_limit_middleware check backend.now env config req reply w in
      elim reply'.sent [ some p ↦ finish_with req (reply', w') | none ↦ from_cache req reply' w' ]

  from_auth : Request → Reply → W → Reply × W
  from_auth req reply w =
      let ((req', reply'), w') = auth_middleware verify config req reply w in
      elim reply'.sent [
        | some p ↦ finish_with req' (reply', w')
        | none ↦ from_rate_limit req' reply' w'
      ]

  -- A request for the catch-all route, with the random ids for its trace.
  unfoldable pub pipeline : Text → Text → Request → W → Reply × W
  unfolding from_auth from_rate_limit from_cache finish_with
  pipeline random_hex span_id req w =
      from_auth (trace_id_middleware random_hex span_id req) fresh_reply w
