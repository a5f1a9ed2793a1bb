-- ===== src/CacheService.antt =====
-- getCached, setCached and invalidateRoute of src/services/cache/cache.service.ts over Redis. The
-- client, `JSON` and base64 are parameters; every error of theirs is swallowed.
pub mod RoundTrip
pub mod Scans
pub mod Invalidation
pub mod Samples
mod Tests
use ts_api_gateway.Common.{
  ℕ, zero, suc, true, false, Option, none, some, List, [], ◌∷◌, ◌++◌, Text, codes, text_eq,
}
use ts_api_gateway.Gateway.Cache.{CachedResponse, CacheStore}
use ts_api_gateway.Proxy.{Outcome, resolved, thrown}

-- Commands of Redis over a state W: GET, SET with EX, SCAN with MATCH and COUNT, and DEL.
pub record CacheClient (W : Type 0) : Type 0 where
  pub get_key : Text → W → Outcome (Option Text) × W
  pub set_ex : Text → Text → ℕ → W → Outcome (Unit {0}) × W
  pub scan : Text → Text → W → Outcome (Text × List Text) × W
  pub del : List Text → W → Outcome (Unit {0}) × W

-- `JSON` on cache entries, and `Buffer` on their bodies.
pub record EntryCodec : Type 0 where
  pub stringify : CachedResponse → Text
  pub parse : Text → Outcome CachedResponse
  pub to_base64 : List ℕ → Text
  pub from_base64 : Text → List ℕ

-- `!raw`: an empty string counts as nothing.
abbrev pub parsed : EntryCodec → Option Text → Option CachedResponse
parsed codec none = none
parsed codec (some []) = none
parsed codec (some (c ∷ raw)) = elim (codec.parse (c ∷ raw)) [
  | resolved r ↦ some r
  | thrown err ↦ none
]

-- `SCAN` starts at the cursor '0' and is over when it returns it.
abbrev pub cursor_zero : Text
cursor_zero = codes "0"

abbrev pub route_prefix : Text → Text
route_prefix route_name = codes "gw:cache:" ++ (route_name ++ codes ":")

module _ {W : Type 0} (client : CacheClient W) (codec : EntryCodec) where
  unfoldable pub get_cached : Text → W → Option CachedResponse × W
  get_cached key w =
      let (raw, w') = client.get_key key w in
      elim raw [ thrown err ↦ (none, w') | resolved found ↦ (parsed codec found, w') ]

  unfoldable pub set_cached : Text → CachedResponse → ℕ → W → W
  set_cached key response ttl w =
      let (answer, w') = client.set_ex key (codec.stringify response) ttl w in
      elim answer [ thrown err ↦ w' | resolved _ ↦ w' ]

  -- What the cache middleware uses.
  abbrev pub redis_store : (W → ℕ) → CacheStore W
  redis_store clock = record {
    get_cached = get_cached;
    set_cached = set_cached;
    to_base64 = codec.to_base64;
    from_base64 = codec.from_base64;
    now = clock;
  }

module _ {W : Type 0} (client : CacheClient W) (pattern_of : Text) where
  -- `if (keys.length > 0) await redis.del(...keys)`
  unfoldable pub delete_keys : List Text → W → Outcome (Unit {0}) × W
  delete_keys [] w = (resolved tt, w)
  delete_keys (key ∷ keys) w = client.del (key ∷ keys) w

  -- The do-while loop on fuel, from a cursor; `none` means that the fuel ran out.
  unfoldable pub scan_from : ℕ → Text → W → Option W
  unfolding delete_keys text_eq
  scan_from zero cursor w = none
  scan_from (suc fuel) cursor w =
      let (page, w1) = client.scan cursor pattern_of w in
      elim page [
        | thrown err ↦ some w1
        | resolved (next_cursor, keys) ↦
            let (answer, w2) = delete_keys keys w1 in
            elim answer [
              | thrown err ↦ some w2
              | resolved _ ↦ elim (text_eq next_cursor cursor_zero) [
                | true ↦ some w2
                | false ↦ scan_from fuel next_cursor w2
              ]
            ]
      ]

unfoldable pub invalidate_route : {W : Type 0} → CacheClient W → ℕ → Text → W → Option W
unfolding scan_from
invalidate_route client fuel route_name w =
    scan_from client (route_prefix route_name ++ codes "*") fuel cursor_zero w
