-- ===== src/Gateway/Handler/Answers.antt =====
-- What the handler answers, and where it sends a request.
use ts_api_gateway.Common.{
  ◌==◌, if◌then◌else◌, Bool-cases, Option-cases, ℕ, ◌-◌, ◌≡◌, refl, ap, ◌∙◌, ◌≢◌, ◌⊎◌, inl, inr,
  true, Option, none, some, List, [], ◌∷◌, map, arith, Text, codes, before, index_of, split, onto,
}
use ts_api_gateway.Common.StringLaws.{split-ne-nil, index_of-take, before_of_index_of}
use ts_api_gateway.Gateway.{
  Env, CachedConfig, Body, no_body, buffer, object, text, Request, Payload, bytes, failure, Reply,
  first_or, path_of,
}
use ts_api_gateway.Gateway.Handler.{
  Backend, raw_path, raw_query, upstream_key, breaker_is_open, is_timeout, metrics_code,
  error_status, error_name,
}
use ts_api_gateway.Proxy.{Thrown, Outcome, resolved, thrown, ProxyOptions, ProxyResult}
use ts_api_gateway.Router.{MatchResult}

split-first : (c : ℕ) (d s : Text) → first_or d (split c s) ≡ before c s
unfolding split before
split-first c d [] = refl
split-first c d (a ∷ s) = elim (Bool-cases (a == c)) [
  | inl h ↦ rw h
  | inr h ↦ rw h (first_or-onto a (split c s) (split-ne-nil c s) ∙ ap (◌∷◌ a) (split-first c d s))
]
  where
    first_or-onto : (a : ℕ) (ps : List Text) → ps ≢ [] → first_or d (onto a ps) ≡ a ∷ first_or d ps
    first_or-onto a [] ne = absurd (ne refl)
    first_or-onto a (p ∷ ps) ne = refl

-- The middlewares, which split the URL at `?`, and the handler, which searches for the first `?`,
-- match the same path: no request is checked against one route and forwarded by another.
pub path_of-eq-raw_path : (url : Text) → path_of url ≡ raw_path url
unfolding path_of raw_path
path_of-eq-raw_path url = elim (Option-cases (index_of b'?' url)) [
  | inl no_query ↦
      split-first b'?' (codes "/") url
      ∙ ground (arith, no_query, before_of_index_of b'?' url no_query)
  | inr (i, found) ↦
      split-first b'?' (codes "/") url ∙ ground (arith, found, index_of-take b'?' url i found)
]

-- The status and the payload for the client, and the status for the counters.
abbrev pub client_status : Outcome ProxyResult → ℕ
client_status (resolved result) = result.status_code
client_status (thrown err) = error_status err

abbrev pub client_payload : Text → Outcome ProxyResult → Payload
client_payload trace_id (resolved result) = bytes result.body
client_payload trace_id (thrown err) = failure (error_name (error_status err)) trace_id

abbrev pub counted_status : Outcome ProxyResult → ℕ
counted_status (resolved result) = result.status_code
counted_status (thrown err) = metrics_code err

-- A request without a body is sent on without one, and the bytes of a body are sent on.
abbrev pub Carries : Body → Option (List ℕ) → Type 0
Carries no_body sent = sent ≡ none
Carries (buffer b) sent = sent ≡ some b
Carries (object b) sent = sent ≡ some b
Carries (text b) sent = sent ≡ some b

module _ {W : Type 0} (backend : Backend W) (env : Env) (config : CachedConfig) where
  -- The reply and the world after the breaker settled.
  abbrev pub Relays : MatchResult → Request → ℕ → Outcome ProxyResult × W → Reply × W → Type 0
  Relays m req start (out, w) (reply, w') =
      (reply.status_code ≡ client_status out)
      × (reply.sent ≡ some (client_payload req.context.trace_id out))
      × (w' ≡ backend.record_request m.route.name (counted_status out) (backend.now w - start) w)

  -- What goes to the breaker for a matched request.
  pub record Asks (req : Request) (m : MatchResult) (options : ProxyOptions) : Type 0 where
    pub upstream_path : options.upstream_path ≡ m.upstream_path
    pub method : options.method ≡ req.method
    pub trace_id : options.trace_id ≡ req.context.trace_id
    pub query_string : options.query_string ≡ raw_query req.url
    pub headers : options.headers ≡ map (λ h. (h.0, some h.1)) req.headers
    pub body : Carries req.body options.body
    pub name : options.route.name ≡ m.route.name
    pub target :
        (options.route ≡ m.route)
        ⊎ ((m.route.canary_upstream_host ≡ some options.route.upstream_host)
            × (m.route.canary_upstream_port ≡ some options.route.upstream_port))

  -- The world as the breaker finds it: the random source has been asked if canaries are on.
  abbrev pub at_breaker : W → W
  at_breaker w = if env.feature_canary_releases then (backend.random w).1 else w

  -- One call of the breaker for the options, in the world that is given, and what follows.
  abbrev pub RelaysOnce : Request → MatchResult → W → Reply × W → Type 0
  RelaysOnce req m w1 result =
      (options : ProxyOptions) × Asks req m options
      × Relays m req (backend.now w1)
          (backend.fire (upstream_key options.route.upstream_host options.route.upstream_port)
            options w1)
          result

-- An error is answered with 502, 503 or 504; the counters get the same status, but for a time-out,
-- which the client sees as 504 and the counters as 502.
pub error_status-metrics_code :
    (err : Thrown)
    → ((error_status err ≡ 503) × (metrics_code err ≡ 503) × (breaker_is_open err ≡ true))
      ⊎ ((error_status err ≡ 504) × (metrics_code err ≡ 502) × (is_timeout err ≡ true))
      ⊎ ((error_status err ≡ 502) × (metrics_code err ≡ 502))
unfolding error_status metrics_code
error_status-metrics_code err = ground arith
