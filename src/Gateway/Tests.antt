-- ===== src/Gateway/Tests.antt =====
-- The theorems at concrete inputs, on the sample gateway.
use ts_api_gateway.CacheService.{get_cached, redis_store}
use ts_api_gateway.CacheService.RoundTrip.{cache_middleware-cache_on_send}
use ts_api_gateway.CacheService.Samples.{list_client, plain_codec, list_faithful}
use ts_api_gateway.Common.{
  ℕ, ◌+◌, ◌≡◌, refl, ◌≢◌, ◌↔◌, ◌⊎◌, true, Option, none, some, [], ◌∷◌, arith, Text, codes, text_eq,
  starts_with, split, lookup, put,
}
use ts_api_gateway.Gateway.{Request, bytes, Reply, fresh_reply, send, path_of, is_internal}
use ts_api_gateway.Gateway.Auth.{JwtLibrary, verify_token, bearer_token, auth_middleware}
use ts_api_gateway.Gateway.Auth.Guard.{
  IsGuarded, Presents, left_request, left_reply, auth_middleware-guarded, verify_token-resolved_iff,
}
use ts_api_gateway.Gateway.Cache.{
  is_cacheable_method, has_bypass_headers, annotate, cache_middleware, buffered, says_no_store,
  cache_on_send,
}
use ts_api_gateway.Gateway.Cache.Lookups.{MayCache}
use ts_api_gateway.Gateway.Pipeline.{pipeline}
use ts_api_gateway.Gateway.Pipeline.Safety.{pipeline-unauthorized, pipeline-limited}
use ts_api_gateway.Gateway.Samples.{
  sample_env, secret, shop, sample_config, sample_request, anonymous, signed, browse, verify_t,
  sample_services, ids, span_ids,
}
use ts_api_gateway.Proxy.{resolved}
use ts_api_gateway.Router.{MatchResult, match_route}
use ts_api_gateway.Trace.{trace_id_middleware}

guarded : IsGuarded sample_config (trace_id_middleware ids span_ids anonymous)
unfolding is_internal path_of match_route lookup text_eq starts_with split trace_id_middleware
guarded = record {
  match = record { route = secret; upstream_path = codes "/secret/1" };
  public_path = refl;
  matched = refl;
  required = refl;
}

no_token : (sub : Text) → ¬ Presents verify_t (trace_id_middleware ids span_ids anonymous) 0 sub
unfolding bearer_token lookup put text_eq starts_with trace_id_middleware
no_token sub p = cc (p.carried)

pipeline-unauthorized_example :
    ((pipeline sample_services sample_env sample_config ids span_ids anonymous 0).0.status_code
      ≡ 401)
    × (((pipeline sample_services sample_env sample_config ids span_ids anonymous 0).1 ≡ 0)
        ⊎ ((token : Text) × ((pipeline sample_services sample_env sample_config ids span_ids
                anonymous 0).1
              ≡ (verify_t token 0).1)))
unfolding trace_id_middleware
pipeline-unauthorized_example =
    pipeline-unauthorized sample_services sample_env sample_config ids span_ids anonymous 0 guarded
      no_token refl

abbrev browsing : Request
browsing = trace_id_middleware ids span_ids browse

abbrev shop_match : MatchResult
shop_match = record { route = shop; upstream_path = codes "/shop" }

pipeline-limited_example :
    ((pipeline sample_services sample_env sample_config ids span_ids browse 0).0.status_code ≡ 429)
    × ((pipeline sample_services sample_env sample_config ids span_ids browse 0).1 ≡ 1)
unfolding is_internal path_of match_route lookup text_eq starts_with split trace_id_middleware
    auth_middleware
pipeline-limited_example =
    pipeline-limited sample_services sample_env sample_config ids span_ids browse browsing
      fresh_reply 0 0 shop_match refl refl refl refl refl refl refl

IsGuarded-signed : IsGuarded sample_config signed
unfolding is_internal path_of match_route lookup text_eq starts_with split
IsGuarded-signed = record {
  match = record { route = secret; upstream_path = codes "/secret/1" };
  public_path = refl;
  matched = refl;
  required = refl;
}

auth_middleware-guarded_example :
    (((sub : Text) → ¬ Presents verify_t signed 0 sub)
      × ((left_reply verify_t sample_config signed fresh_reply 0).status_code ≡ 401)
      × ((left_reply verify_t sample_config signed fresh_reply 0).sent ≢ none))
    ⊎ ((sub : Text) × Presents verify_t signed 0 sub
        × ((left_request verify_t sample_config signed fresh_reply 0).context.user_id ≡ some sub)
        × (left_reply verify_t sample_config signed fresh_reply 0 ≡ fresh_reply))
auth_middleware-guarded_example =
    auth_middleware-guarded verify_t sample_config signed fresh_reply 0 IsGuarded-signed

abbrev administration : Request
administration = sample_request (codes "/administration/users") []

abbrev one_key_library : JwtLibrary ℕ
one_key_library = record {
  decode = λ token. some (some (codes "k1"));
  signing_key = λ kid w. (resolved (some (codes "PEM")), w + 1);
  verify = λ token key. resolved (codes "alice");
}

verify_token-resolved_iff_example :
    ((verify_token one_key_library true (codes "t") 0).0 ≡ resolved (codes "alice")) ↔ (
      (kid : Option Text) × (key : Text) × (one_key_library.decode (codes "t") ≡ some kid)
      × (true ≡ true)
      × ((one_key_library.signing_key kid 0).0 ≡ resolved (some key))
      × (key ≢ [])
      × (one_key_library.verify (codes "t") key ≡ resolved (codes "alice")))
verify_token-resolved_iff_example =
    verify_token-resolved_iff one_key_library true (codes "t") (codes "alice") 0

abbrev marked : Request
marked = annotate (codes "gw:cache:shop:GET:/shop") 60 browse

abbrev ok_reply : Reply
ok_reply = send 200 (bytes (104 ∷ [])) fresh_reply

may_cache : MayCache sample_env browse
unfolding is_cacheable_method has_bypass_headers text_eq lookup
may_cache = record { enabled = refl; method = refl; anonymous = refl }

-- The same request again, with the cache in a list of keys.
cache_middleware-cache_on_send_example :
    let store = redis_store list_client plain_codec (λ w. 5) in
    let left = (cache_middleware store sample_env sample_config browse fresh_reply []).0.0 in
    let stored = cache_on_send store left ok_reply (buffered (104 ∷ [])) [] in
    let answered =
      (cache_middleware store sample_env sample_config browse fresh_reply stored).0.1 in
    (answered.status_code ≡ 200) × (answered.sent ≡ some (bytes (104 ∷ [])))
unfolding is_internal path_of match_route lookup text_eq starts_with split says_no_store get_cached
cache_middleware-cache_on_send_example =
    cache_middleware-cache_on_send list_client plain_codec list_faithful (λ w. 5) sample_env
      sample_config browse fresh_reply ok_reply fresh_reply (buffered (104 ∷ [])) (104 ∷ [])
      shop_match [] [] may_cache refl refl (omega arith) refl (omega arith) (omega arith) refl refl
      refl
