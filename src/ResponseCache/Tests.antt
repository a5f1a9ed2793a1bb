-- ===== src/ResponseCache/Tests.antt =====
-- Keys of concrete URLs, and the theorems at concrete inputs.
use mathlib.Core.List.{Permᴰ}
use ts_api_gateway.Common.{◌≡◌, refl, [], ◌∷◌, codes, has, split, join}
use ts_api_gateway.ResponseCache.{text_le, insert_text, sort_texts, sorted_query, build_cache_key}
use ts_api_gateway.ResponseCache.Keys.{build_cache_key_of_Permᴰ, build_cache_key-second_mark}

one_key :
    build_cache_key (codes "orders") (codes "GET") (codes "/v1?b=2&a=1")
    ≡ codes "gw:cache:orders:GET:/v1?a=1&b=2"
unfolding build_cache_key sorted_query sort_texts insert_text text_le split join
one_key = refl

abbrev swapped : Permᴰ (codes "b=2" ∷ codes "a=1" ∷ []) (codes "a=1" ∷ codes "b=2" ∷ [])
swapped = Permᴰ.swap refl refl

build_cache_key_of_Permᴰ_example :
    build_cache_key (codes "orders") (codes "GET") (codes "/v1?b=2&a=1")
    ≡ build_cache_key (codes "orders") (codes "GET") (codes "/v1?a=1&b=2")
unfolding has split
build_cache_key_of_Permᴰ_example =
    build_cache_key_of_Permᴰ (codes "orders") (codes "GET") (codes "/v1") (codes "b=2&a=1")
      (codes "a=1&b=2") refl refl refl swapped

build_cache_key-second_mark_example :
    build_cache_key (codes "orders") (codes "GET") (codes "/v1?next=/a?id=1")
    ≡ build_cache_key (codes "orders") (codes "GET") (codes "/v1?next=/a")
unfolding has
build_cache_key-second_mark_example =
    build_cache_key-second_mark (codes "orders") (codes "GET") (codes "/v1") (codes "next=/a")
      (codes "id=1") refl refl
