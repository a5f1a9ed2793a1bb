-- ===== src/CacheService/RoundTrip.antt =====
-- A reply that was stored is served again.
use ts_api_gateway.CacheService.{
  CacheClient, EntryCodec, parsed, get_cached, set_cached, redis_store,
}
use ts_api_gateway.Common.{
  ℕ, ◌≤◌, ◌<◌, ◌≡◌, refl, ap, ◌∙◌, ◌≢◌, false, none, some, List, [], ◌∷◌, arith, Text,
}
use ts_api_gateway.Gateway.{Env, CachedConfig, Request, bytes, Reply, path_of, is_internal}
use ts_api_gateway.Gateway.Auth.{policy_of}
use ts_api_gateway.Gateway.Cache.{
  CachedResponse, ttl_of, cache_middleware, Outgoing, says_no_store, outgoing_bytes, entry_for,
  cache_on_send,
}
use ts_api_gateway.Gateway.Cache.Lookups.{MayCache, cache_middleware_hit, cache_middleware_miss}
use ts_api_gateway.Gateway.Cache.Storing.{cache_on_send-stores}
use ts_api_gateway.Proxy.{resolved}
use ts_api_gateway.ResponseCache.{build_cache_key}
use ts_api_gateway.Router.{MatchResult, match_route}

-- What Redis and the codecs document: a value that SET accepted is what GET then finds, before its
-- time is over; what is written as JSON or base64 is read back.
pub record IsFaithful {W : Type 0} (client : CacheClient W) (codec : EntryCodec) : Type 0 where
  pub set_get :
      (key v : Text) (ttl : ℕ) (w : W)
      → (client.set_ex key v ttl w).0 ≡ resolved tt
      → (client.get_key key (client.set_ex key v ttl w).1).0 ≡ resolved (some v)
  pub json : (r : CachedResponse) → codec.parse (codec.stringify r) ≡ resolved r
  pub json_text : (r : CachedResponse) → codec.stringify r ≢ []
  pub base64 : (b : List ℕ) → codec.from_base64 (codec.to_base64 b) ≡ b

parsed-stringify :
    (codec : EntryCodec) (r : CachedResponse) (raw : Text)
    → codec.stringify r ≡ raw
    → codec.stringify r ≢ []
    → codec.parse (codec.stringify r) ≡ resolved r
    → parsed codec (some raw) ≡ some r
parsed-stringify codec r [] e ne back = absurd (ne e)
parsed-stringify codec r (c ∷ raw) e ne back = ground (arith, e, back)

build_cache_key-ne-nil : (name method url : Text) → build_cache_key name method url ≢ []
unfolding build_cache_key
build_cache_key-ne-nil name method url e = cc

module _ {W : Type 0} (client : CacheClient W) (codec : EntryCodec)
    (faithful : IsFaithful client codec) where
  -- What `setCached` wrote, `getCached` reads.
  get_cached-set_cached :
      (key : Text) (r : CachedResponse) (ttl : ℕ) (w : W)
      → (client.set_ex key (codec.stringify r) ttl w).0 ≡ resolved tt
      → (get_cached client codec key (set_cached client codec key r ttl w)).0 ≡ some r
  unfolding get_cached set_cached
  get_cached-set_cached key r ttl w written = ground (
    arith,
    written,
    faithful.set_get key (codec.stringify r) ttl w,
    parsed-stringify codec r (codec.stringify r) refl (faithful.json_text r) (faithful.json r),
  )

  module _ (clock : W → ℕ) (env : Env) (config : CachedConfig) where
    -- A GET or HEAD request that the cache hook finds no entry for, whose reply the onSend hook stores,
    -- and which comes again while the entry lasts: the cache hook then answers it with the status and
    -- the bytes of the first reply. The request that onSend gets is the one that the cache hook
    -- left; reply and world are whatever the handler made of them. The conditions are those under
    -- which the hooks look up and store, and that Redis accepts the write.
    pub cache_middleware-cache_on_send :
        (req : Request) (first_reply reply next_reply : Reply) (payload : Outgoing) (b : List ℕ)
        (m : MatchResult) (w0 w : W)
        → let store = redis_store client codec clock in
          let key = build_cache_key m.route.name req.method req.url in
          let ttl = ttl_of env (policy_of config m) in
          MayCache env req
          → is_internal (path_of req.url) ≡ false
          → match_route (path_of req.url) config.routes ≡ some m
          → 0 < ttl
          → (get_cached client codec key w0).0 ≡ none
          → 200 ≤ reply.status_code
          → reply.status_code < 300
          → says_no_store reply.headers ≡ false
          → outgoing_bytes payload ≡ some b
          → (client.set_ex key (codec.stringify (entry_for store reply b w)) ttl w).0 ≡ resolved tt
          → let marked = (cache_middleware store env config req first_reply w0).0.0 in
            let stored = cache_on_send store marked reply payload w in
            let answered = (cache_middleware store env config req next_reply stored).0.1 in
            (answered.status_code ≡ reply.status_code) × (answered.sent ≡ some (bytes b))
    cache_middleware-cache_on_send req first_reply reply next_reply payload b m w0 w may public
          matched lasting missed low high allowed held written =
        let store = redis_store client codec clock in
        let key = build_cache_key m.route.name req.method req.url in
        let ttl = ttl_of env (policy_of config m) in
        let entry = entry_for store reply b w in
        let marked = (cache_middleware store env config req first_reply w0).0.0 in
        let mark =
          cache_middleware_miss store env config req first_reply w0 m may public matched lasting
            missed in
        let stored_is =
          cache_on_send-stores store marked reply payload w key ttl b
            (ap (λ (r : Request). r.context.cache_key) mark)
            (ap (λ (r : Request). r.context.cache_ttl) mark)
            (build_cache_key-ne-nil m.route.name req.method req.url) lasting low high allowed
            held in
        let hit =
          ap (λ v. (get_cached client codec key v).0) stored_is
          ∙ get_cached-set_cached key entry ttl w written in
        let (status_is, sent_is) =
          cache_middleware_hit store env config req next_reply
            (cache_on_send store marked reply payload w) m entry may public matched lasting hit in
        (status_is, sent_is ∙ ap (λ x. some (bytes x)) (faithful.base64 b))
