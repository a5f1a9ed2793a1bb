-- ===== src/Gateway/Cache.antt =====
-- src/middlewares/cache.middleware.ts over getCached and setCached of
-- src/services/cache/cache.service.ts. Redis, JSON, base64 and the clock enter as a record; a miss
-- and an error of Redis or of JSON.parse are both `none`. CacheService makes such a record of Redis.
pub mod Lookups
pub mod Storing
use ts_api_gateway.Common.{
  ltb, leb, ◌==◌, if◌then◌else◌, or_default, ℕ, ◌-◌, ◌/◌, Bool, true, false, not, ◌||◌, Option,
  none, some, List, [], ◌∷◌, Text, codes, text_eq, includes, join, decimal, lookup, Dict,
}
use ts_api_gateway.Gateway.{
  Env, CachedConfig, Request, bytes, HeaderField, number, value, Reply, set_header, send, path_of,
  is_internal, string_header,
}
use ts_api_gateway.Gateway.Auth.{policy_of}
use ts_api_gateway.Models.{Policy}
use ts_api_gateway.Proxy.{HeaderValue, one, many}
use ts_api_gateway.ResponseCache.{build_cache_key}
use ts_api_gateway.Router.{MatchResult, match_route}

pub record CachedResponse : Type 0 where
  pub status_code : ℕ
  pub headers : Dict Text
  pub body : Text
  pub cached_at : ℕ

pub record CacheStore (W : Type 0) : Type 0 where
  pub get_cached : Text → W → Option CachedResponse × W
  pub set_cached : Text → CachedResponse → ℕ → W → W
  pub to_base64 : List ℕ → Text
  pub from_base64 : Text → List ℕ
  pub now : W → ℕ

abbrev pub cacheable_response_headers : List Text
cacheable_response_headers =
    codes "content-type"
    ∷ codes "content-encoding"
    ∷ codes "etag"
    ∷ codes "last-modified"
    ∷ codes "cache-control"
    ∷ codes "x-request-id"
    ∷ []

unfoldable pub is_cacheable_method : Text → Bool
unfolding text_eq
is_cacheable_method method = text_eq method (codes "GET") || text_eq method (codes "HEAD")

-- A header is present and not empty.
abbrev truthy : Option HeaderValue → Bool
truthy none = false
truthy (some (one [])) = false
truthy (some (one (c ∷ s))) = true
truthy (some (many vs)) = true

abbrev asks_to_bypass : Option Text → Bool
asks_to_bypass none = false
asks_to_bypass (some cc) = includes cc (codes "no-cache") || includes cc (codes "no-store")

unfoldable pub has_bypass_headers : Request → Bool
unfolding includes lookup text_eq
has_bypass_headers req =
    asks_to_bypass (string_header (codes "cache-control") req.headers)
    || truthy (lookup (codes "authorization") req.headers)

-- `policy?.cacheTtlSeconds ?? env.CACHE_DEFAULT_TTL_SECONDS`
abbrev pub ttl_of : Env → Option Policy → ℕ
ttl_of env none = env.cache_default_ttl_seconds
ttl_of env (some policy) = or_default policy.cache_ttl_seconds env.cache_default_ttl_seconds

abbrev pub restore_headers : Dict Text → Reply → Reply
restore_headers [] reply = reply
restore_headers ((k, v) ∷ headers) reply =
    restore_headers headers (set_header k (value (one v)) reply)

abbrev pub annotate : Text → ℕ → Request → Request
annotate key ttl req = record req {
  context = record req.context { cache_key = some key; cache_ttl = some ttl };
}

module _ {W : Type 0} (store : CacheStore W) (env : Env) (config : CachedConfig) where
  -- The reply of a hit.
  abbrev pub serve : CachedResponse → ℕ → Reply → Reply
  serve cached now reply = send cached.status_code (bytes (store.from_base64 cached.body)) (
      restore_headers cached.headers (
        set_header (codes "X-Cache-Age") (value (one (decimal ((now - cached.cached_at) / 1000))))
          (set_header (codes "X-Cache") (value (one (codes "HIT"))) reply)))

  -- From the matched route on.
  look_up : MatchResult → Request → Reply → W → (Request × Reply) × W
  look_up match req reply w =
      let ttl = ttl_of env (policy_of config match) in
      if leb ttl 0
      then ((req, reply), w)
      else let key = build_cache_key match.route.name req.method req.url in
        let (found, w') = store.get_cached key w in
        elim found [
          | some cached ↦ ((req, serve cached (store.now w') reply), w')
          | none ↦ (
            (annotate key ttl req, set_header (codes "X-Cache") (value (one (codes "MISS"))) reply),
            w',
          )
        ]

  unfoldable pub cache_middleware : Request → Reply → W → (Request × Reply) × W
  unfolding look_up
  cache_middleware req reply w =
      let path = path_of req.url in
      if not env.cache_enabled
        || (not (is_cacheable_method req.method) || (has_bypass_headers req || is_internal path))
      then ((req, reply), w)
      else elim (match_route path config.routes) [
        | none ↦ ((req, reply), w)
        | some match ↦ look_up match req reply w
      ]

-- What `onSend` gets: a buffer, a string with its bytes, or something else.
pub data Outgoing : Type 0 where
  buffered : List ℕ → Outgoing
  string : List ℕ → Outgoing
  other : Outgoing

-- `String(value)` of a header field; an array is joined by commas.
abbrev pub field_text : HeaderField → Text
field_text (number n) = decimal n
field_text (value (one s)) = s
field_text (value (many ss)) = join (codes ",") ss

-- The loop over the headers that are kept.
abbrev pub kept_headers : List Text → Dict HeaderField → Dict Text
kept_headers [] headers = []
kept_headers (name ∷ names) headers = elim (lookup name headers) [
  | none ↦ kept_headers names headers
  | some v ↦ (name, field_text v) ∷ kept_headers names headers
]

-- The upstream says `no-store`.
unfoldable pub says_no_store : Dict HeaderField → Bool
unfolding includes
says_no_store headers = elim (lookup (codes "cache-control") headers) [
  | none ↦ false
  | some v ↦ elim v [
    | number n ↦ false
    | value h ↦ elim h [ one s ↦ includes s (codes "no-store") | many ss ↦ false ]
  ]
]

abbrev pub outgoing_bytes : Outgoing → Option (List ℕ)
outgoing_bytes (buffered b) = some b
outgoing_bytes (string b) = some b
outgoing_bytes other = none

module _ {W : Type 0} (store : CacheStore W) where
  abbrev pub entry_for : Reply → List ℕ → W → CachedResponse
  entry_for reply b w = record {
    status_code = reply.status_code;
    headers = kept_headers cacheable_response_headers reply.headers;
    body = store.to_base64 b;
    cached_at = store.now w;
  }

  -- From the conditions on the reply on.
  store_entry : Text → ℕ → Reply → Outgoing → W → W
  store_entry key ttl reply payload w =
      if ltb reply.status_code 200 || leb 300 reply.status_code
      then w
      else if says_no_store reply.headers
      then w
      else elim (outgoing_bytes payload) [
        | none ↦ w
        | some b ↦ store.set_cached key (entry_for reply b w) ttl w
      ]

  unfoldable pub cache_on_send : Request → Reply → Outgoing → W → W
  unfolding store_entry
  cache_on_send req reply payload w = elim req.context.cache_key [
    | none ↦ w
    | some key ↦ elim req.context.cache_ttl [
      | none ↦ w
      | some ttl ↦ if text_eq key [] || ttl == 0 then w else store_entry key ttl reply payload w
    ]
  ]
