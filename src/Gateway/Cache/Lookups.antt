-- ===== src/Gateway/Cache/Lookups.antt =====
-- Which requests the cache answers, and which it marks.
use mathlib.Core.Path.{subst}
use ts_api_gateway.Common.{
  leb, Bool-cases, Option-cases, ℕ, ◌<◌, ◌≡◌, sym, ap, ◌∙◌, ◌⊎◌, inl, inr, Bool, true, false, not,
  ◌||◌, none, some, arith,
}
use ts_api_gateway.Gateway.{Env, CachedConfig, Request, bytes, Reply, path_of, is_internal}
use ts_api_gateway.Gateway.Auth.{policy_of}
use ts_api_gateway.Gateway.Cache.{
  CachedResponse, CacheStore, is_cacheable_method, has_bypass_headers, ttl_of, annotate,
  cache_middleware, look_up,
}
use ts_api_gateway.ResponseCache.{build_cache_key}
use ts_api_gateway.Router.{MatchResult, match_route}

-- The requests that may use the cache at all.
pub record MayCache (env : Env) (req : Request) : Type 0 where
  pub enabled : env.cache_enabled ≡ true
  pub method : is_cacheable_method req.method ≡ true
  pub anonymous : has_bypass_headers req ≡ false

abbrev closed : Env → Request → Bool
closed env req =
    not env.cache_enabled
    || (not (is_cacheable_method req.method)
        || (has_bypass_headers req || is_internal (path_of req.url)))

MayCache-of_closed : (env : Env) (req : Request) → closed env req ≡ false → MayCache env req
MayCache-of_closed env req h = record {
  enabled = ground arith;
  method = ground arith;
  anonymous = ground arith;
}

module _ {W : Type 0} (store : CacheStore W) (env : Env) (config : CachedConfig) where
  -- What looking up a matched route leaves.
  abbrev pub Looked : MatchResult → Request → W → (Request × Reply) × W → Type 0
  Looked m req w left =
      ((cached : CachedResponse) × ((store.get_cached
            (build_cache_key m.route.name req.method req.url) w).0
          ≡ some cached)
        × (left.0.1.status_code ≡ cached.status_code)
        × (left.0.1.sent ≡ some (bytes (store.from_base64 cached.body))))
      ⊎ ((ttl : ℕ) × (0 < ttl)
          × (left.0.0 ≡ annotate (build_cache_key m.route.name req.method req.url) ttl req))

  look_up-cases :
      (m : MatchResult) (req : Request) (reply : Reply) (w : W)
      → (look_up store env config m req reply w ≡ ((req, reply), w))
        ⊎ Looked m req w (look_up store env config m req reply w)
  unfolding look_up
  look_up-cases m req reply w =
      let key = build_cache_key m.route.name req.method req.url in
      let ttl = ttl_of env (policy_of config m) in
      elim (Bool-cases (leb ttl 0)) [
        | inl off ↦ inl (ground (arith, off))
        | inr on ↦ elim (Option-cases (store.get_cached key w).0) [
          | inl miss ↦ inr (inr (ttl, ground arith, ground (arith, on, miss)))
          | inr (cached, hit) ↦
              inr (inl (cached, hit, ground (arith, on, hit), ground (arith, on, hit)))
        ]
      ]

  cache_middleware-closed :
      (req : Request) (reply : Reply) (w : W)
      → closed env req ≡ true
      → cache_middleware store env config req reply w ≡ ((req, reply), w)
  unfolding cache_middleware
  cache_middleware-closed req reply w h = ground (arith, h)

  cache_middleware_unmatched :
      (req : Request) (reply : Reply) (w : W)
      → match_route (path_of req.url) config.routes ≡ none
      → cache_middleware store env config req reply w ≡ ((req, reply), w)
  unfolding cache_middleware
  cache_middleware_unmatched req reply w h = elim (Bool-cases (closed env req)) [
    | inl shut ↦ ground (arith, shut)
    | inr ajar ↦ ground (arith, ajar, h)
  ]

  cache_middleware_matched :
      (req : Request) (reply : Reply) (w : W) (m : MatchResult)
      → closed env req ≡ false
      → match_route (path_of req.url) config.routes ≡ some m
      → cache_middleware store env config req reply w ≡ look_up store env config m req reply w
  unfolding cache_middleware
  cache_middleware_matched req reply w m h e = rw (h, e, cache_middleware)

  -- The middleware leaves request, reply and world alone; or the request is a GET or a HEAD without
  -- credentials or a cache bypass, matches a route, and either gets the status and the body of the
  -- entry stored under its own key, or is marked with that key and a positive time to live.
  pub cache_middleware-cases :
      (req : Request) (reply : Reply) (w : W)
      → (cache_middleware store env config req reply w ≡ ((req, reply), w))
        ⊎ (MayCache env req
            × ((m : MatchResult) × (match_route (path_of req.url) config.routes ≡ some m)
                × Looked m req w (cache_middleware store env config req reply w)))
  cache_middleware-cases req reply w = elim (Bool-cases (closed env req)) [
    | inl shut ↦ inl (cache_middleware-closed req reply w shut)
    | inr ajar ↦ elim (Option-cases (match_route (path_of req.url) config.routes)) [
      | inl unmatched ↦ inl (cache_middleware_unmatched req reply w unmatched)
      | inr (m, matched) ↦
          let step = cache_middleware_matched req reply w m ajar matched in
          elim (look_up-cases m req reply w) [
            | inl same ↦ inl (step ∙ same)
            | inr looked ↦ inr (
              MayCache-of_closed env req ajar,
              (m, matched, subst (Looked m req w) (sym step) looked),
            )
          ]
    ]
  ]

  look_up-Looked :
      (m : MatchResult) (req : Request) (reply : Reply) (w : W)
      → 0 < ttl_of env (policy_of config m)
      → Looked m req w (look_up store env config m req reply w)
  unfolding look_up
  look_up-Looked m req reply w lt =
      let key = build_cache_key m.route.name req.method req.url in
      let ttl = ttl_of env (policy_of config m) in
      elim (Option-cases (store.get_cached key w).0) [
        | inl miss ↦ inr (ttl, lt, ground (arith, lt, miss))
        | inr (cached, hit) ↦ inl (cached, hit, ground (arith, lt, hit), ground (arith, lt, hit))
      ]

  -- With caching on, a GET or HEAD request without credentials or a cache bypass, for a public path
  -- that matches a route with a positive time to live, gets the status and the body of the entry
  -- stored under its key, or is marked with that key and a positive time to live.
  pub cache_middleware-Looked :
      (req : Request) (reply : Reply) (w : W) (m : MatchResult)
      → MayCache env req
      → is_internal (path_of req.url) ≡ false
      → match_route (path_of req.url) config.routes ≡ some m
      → 0 < ttl_of env (policy_of config m)
      → Looked m req w (cache_middleware store env config req reply w)
  cache_middleware-Looked req reply w m may public matched lt =
      subst (Looked m req w)
        (sym (
          cache_middleware_matched req reply w m
            (ground (arith, may.enabled, may.method, may.anonymous, public)) matched))
        (look_up-Looked m req reply w lt)

  look_up_hit :
      (m : MatchResult) (req : Request) (reply : Reply) (w : W) (cached : CachedResponse)
      → 0 < ttl_of env (policy_of config m)
      → (store.get_cached (build_cache_key m.route.name req.method req.url) w).0 ≡ some cached
      → let answered = (look_up store env config m req reply w).0.1 in
        (answered.status_code ≡ cached.status_code)
        × (answered.sent ≡ some (bytes (store.from_base64 cached.body)))
  unfolding look_up
  look_up_hit m req reply w cached lt hit = (ground (arith, lt, hit), ground (arith, lt, hit))

  -- Such a request, when its entry is found.
  pub cache_middleware_hit :
      (req : Request) (reply : Reply) (w : W) (m : MatchResult) (cached : CachedResponse)
      → MayCache env req
      → is_internal (path_of req.url) ≡ false
      → match_route (path_of req.url) config.routes ≡ some m
      → 0 < ttl_of env (policy_of config m)
      → (store.get_cached (build_cache_key m.route.name req.method req.url) w).0 ≡ some cached
      → let answered = (cache_middleware store env config req reply w).0.1 in
        (answered.status_code ≡ cached.status_code)
        × (answered.sent ≡ some (bytes (store.from_base64 cached.body)))
  cache_middleware_hit req reply w m cached may public matched lt hit =
      let step =
        cache_middleware_matched req reply w m
          (ground (arith, may.enabled, may.method, may.anonymous, public)) matched in
      let (status_is, sent_is) = look_up_hit m req reply w cached lt hit in
      (
        ap (λ (r : (Request × Reply) × W). r.0.1.status_code) step ∙ status_is,
        ap (λ (r : (Request × Reply) × W). r.0.1.sent) step ∙ sent_is,
      )

  look_up_miss :
      (m : MatchResult) (req : Request) (reply : Reply) (w : W)
      → 0 < ttl_of env (policy_of config m)
      → (store.get_cached (build_cache_key m.route.name req.method req.url) w).0 ≡ none
      → (look_up store env config m req reply w).0.0
        ≡ annotate
            (build_cache_key m.route.name req.method req.url)
            (ttl_of env (policy_of config m))
            req
  unfolding look_up
  look_up_miss m req reply w lt miss = ground (arith, lt, miss)

  -- Such a request, when its entry is not found.
  pub cache_middleware_miss :
      (req : Request) (reply : Reply) (w : W) (m : MatchResult)
      → MayCache env req
      → is_internal (path_of req.url) ≡ false
      → match_route (path_of req.url) config.routes ≡ some m
      → 0 < ttl_of env (policy_of config m)
      → (store.get_cached (build_cache_key m.route.name req.method req.url) w).0 ≡ none
      → (cache_middleware store env config req reply w).0.0
        ≡ annotate
            (build_cache_key m.route.name req.method req.url)
            (ttl_of env (policy_of config m))
            req
  cache_middleware_miss req reply w m may public matched lt miss =
      let step =
        cache_middleware_matched req reply w m
          (ground (arith, may.enabled, may.method, may.anonymous, public)) matched in
      ap (λ (r : (Request × Reply) × W). r.0.0) step ∙ look_up_miss m req reply w lt miss
