-- ===== src/ResponseCache.antt =====
-- buildCacheKey of src/services/cache/cache.service.ts: the Redis key of a cacheable request.
pub mod Keys
mod Tests
use ts_api_gateway.Common.{
  ltb, ◌==◌, if◌then◌else◌, keep, Bool, true, false, List, [], ◌∷◌, ◌++◌, Text, codes, split, join,
}

-- The order of `Array.prototype.sort` on strings: by code units, a prefix first.
unfoldable pub text_le : Text → Text → Bool
text_le [] t = true
text_le (a ∷ s) [] = false
text_le (a ∷ s) (b ∷ t) = if a == b then text_le s t else ltb a b

unfoldable pub insert_text : Text → List Text → List Text
insert_text x [] = x ∷ []
insert_text x (y ∷ ys) = if text_le x y then x ∷ (y ∷ ys) else y ∷ insert_text x ys

unfoldable pub sort_texts : List Text → List Text
sort_texts [] = []
sort_texts (x ∷ xs) = insert_text x (sort_texts xs)

-- `filter(Boolean)` on strings
abbrev pub nonempty : Text → Bool
nonempty [] = false
nonempty (c ∷ s) = true

-- `const [path, qs = ''] = url.split('?')`
abbrev pub path_and_query : List Text → Text × Text
path_and_query [] = ([], [])
path_and_query (path ∷ []) = (path, [])
path_and_query (path ∷ qs ∷ more) = (path, qs)

unfoldable pub sorted_query : Text → Text
sorted_query qs = join (codes "&") (sort_texts (keep nonempty (split b'&' qs)))

abbrev pub with_query : Text → Text → Text
with_query path [] = path
with_query path (c ∷ qs) = path ++ (codes "?" ++ (c ∷ qs))

unfoldable pub build_cache_key : Text → Text → Text → Text
build_cache_key route_name method url =
    let (path, qs) = path_and_query (split b'?' url) in
    codes "gw:cache:"
    ++ (route_name ++ (codes ":" ++ (method ++ (codes ":" ++ with_query path (sorted_query qs)))))
