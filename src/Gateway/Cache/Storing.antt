-- ===== src/Gateway/Cache/Storing.antt =====
-- What the `onSend` hook stores.
use ts_api_gateway.Common.{
  ◌==◌, if◌then◌else◌, ℕ, ◌≤◌, ◌<◌, ◌≡◌, ◌∙◌, ◌≢◌, ◌⊎◌, true, false, ◌||◌, none, some, List, [],
  arith, Text, text_eq, text_eq_iff,
}
use ts_api_gateway.Gateway.{Request, Reply}
use ts_api_gateway.Gateway.Cache.{
  CachedResponse, CacheStore, cacheable_response_headers, Outgoing, kept_headers, says_no_store,
  outgoing_bytes, entry_for, cache_on_send, store_entry,
}

module _ {W : Type 0} (store : CacheStore W) where
  -- Why nothing is stored.
  abbrev pub Skips : Request → Reply → Outgoing → Type 0
  Skips req reply payload =
      (req.context.cache_key ≡ none)
      ⊎ (req.context.cache_ttl ≡ none)
      ⊎ (req.context.cache_key ≡ some [])
      ⊎ (req.context.cache_ttl ≡ some 0)
      ⊎ (reply.status_code < 200)
      ⊎ (300 ≤ reply.status_code)
      ⊎ (says_no_store reply.headers ≡ true)
      ⊎ (outgoing_bytes payload ≡ none)

  -- The entry of a reply that was sent with these bytes at this time.
  abbrev pub Records : CachedResponse → Reply → List ℕ → W → Type 0
  Records entry reply b w =
      (entry.status_code ≡ reply.status_code)
      × (entry.body ≡ store.to_base64 b)
      × (entry.headers ≡ kept_headers cacheable_response_headers reply.headers)
      × (entry.cached_at ≡ store.now w)

  -- What is stored, and where.
  abbrev pub Stores : Request → Reply → Outgoing → W → W → Type 0
  Stores req reply payload w w' =
      (key : Text) × (ttl : ℕ) × (b : List ℕ) × (entry : CachedResponse) × (req.context.cache_key
        ≡ some key)
      × (req.context.cache_ttl ≡ some ttl)
      × (200 ≤ reply.status_code)
      × (reply.status_code < 300)
      × (says_no_store reply.headers ≡ false)
      × (outgoing_bytes payload ≡ some b)
      × Records entry reply b w
      × (w' ≡ store.set_cached key entry ttl w)

  on_send_marked :
      (req : Request) (reply : Reply) (payload : Outgoing) (w : W) (key : Text) (ttl : ℕ)
      → req.context.cache_key ≡ some key
      → req.context.cache_ttl ≡ some ttl
      → cache_on_send store req reply payload w
        ≡ (if text_eq key [] || ttl == 0 then w else store_entry store key ttl reply payload w)
  unfolding cache_on_send
  on_send_marked req reply payload w key ttl h k = rw (h, k, cache_on_send)

  entry_stored :
      (key : Text) (ttl : ℕ) (reply : Reply) (payload : Outgoing) (w : W) (b : List ℕ)
      → 200 ≤ reply.status_code
      → reply.status_code < 300
      → says_no_store reply.headers ≡ false
      → outgoing_bytes payload ≡ some b
      → store_entry store key ttl reply payload w
        ≡ store.set_cached key (entry_for store reply b w) ttl w
  unfolding store_entry
  entry_stored key ttl reply payload w b low high allowed held =
      ground (arith, low, high, allowed, held)

  -- A reply to a request that is marked with a key and a positive time to live, with a 2xx status, no
  -- `no-store` and bytes to send, is stored under that key for that time.
  pub cache_on_send-stores :
      (req : Request) (reply : Reply) (payload : Outgoing) (w : W) (key : Text) (ttl : ℕ)
      (b : List ℕ)
      → req.context.cache_key ≡ some key
      → req.context.cache_ttl ≡ some ttl
      → key ≢ []
      → 0 < ttl
      → 200 ≤ reply.status_code
      → reply.status_code < 300
      → says_no_store reply.headers ≡ false
      → outgoing_bytes payload ≡ some b
      → cache_on_send store req reply payload w
        ≡ store.set_cached key (entry_for store reply b w) ttl w
  cache_on_send-stores req reply payload w key ttl b k t named lasting low high allowed held =
      on_send_marked req reply payload w key ttl k t
      ∙ ground (arith, text_eq_iff key [], named, lasting)
      ∙ entry_stored key ttl reply payload w b low high allowed held
