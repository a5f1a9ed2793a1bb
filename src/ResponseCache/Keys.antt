-- ===== src/ResponseCache/Keys.antt =====
-- Which URLs share a cache entry.
use mathlib.Core.List.{Permᴰ}
use ts_api_gateway.Common.{
  keep, ◌≡◌, refl, ◌∙◌, ◌⊎◌, inl, inr, true, false, List, [], ◌∷◌, ◌++◌, arith, Text, has, split,
}
use ts_api_gateway.Common.StringLaws.{split_of_has, split-append}
use ts_api_gateway.ResponseCache.{
  text_le, insert_text, sort_texts, nonempty, sorted_query, build_cache_key,
}

text_le_total : (s t : Text) → (text_le s t ≡ true) ⊎ (text_le t s ≡ true)
unfolding text_le
text_le_total [] t = inl refl
text_le_total (a ∷ s) [] = inr refl
text_le_total (a ∷ s) (b ∷ t) = ground (arith, text_le_total s t)

text_le_antisymm : (s t : Text) → text_le s t ≡ true → text_le t s ≡ true → s ≡ t
unfolding text_le
text_le_antisymm [] [] h k = refl
text_le_antisymm [] (b ∷ t) h k = cc
text_le_antisymm (a ∷ s) [] h k = cc
text_le_antisymm (a ∷ s) (b ∷ t) h k = ground (arith, text_le_antisymm s t)

text_le_trans : (s t u : Text) → text_le s t ≡ true → text_le t u ≡ true → text_le s u ≡ true
unfolding text_le
text_le_trans [] t u h k = refl
text_le_trans (a ∷ s) [] u h k = cc
text_le_trans (a ∷ s) (b ∷ t) [] h k = cc
text_le_trans (a ∷ s) (b ∷ t) (c ∷ u) h k = ground (arith, text_le_trans s t u)

-- Inserting two parameters gives the same list in either order.
insert_text_comm :
    (x y : Text) (zs : List Text)
    → insert_text x (insert_text y zs) ≡ insert_text y (insert_text x zs)
unfolding insert_text
insert_text_comm x y [] = ground (arith, text_le_total x y, text_le_antisymm x y)
insert_text_comm x y (z ∷ zs) = ground (
  arith,
  insert_text_comm x y zs,
  text_le_total x y,
  text_le_antisymm x y,
  text_le_total x z,
  text_le_total y z,
  text_le_trans x y z,
  text_le_trans y x z,
  text_le_trans x z y,
  text_le_trans y z x,
)

sort_texts-keep-cons :
    (x y : Text) (ps qs : List Text)
    → x ≡ y
    → sort_texts (keep nonempty ps) ≡ sort_texts (keep nonempty qs)
    → sort_texts (keep nonempty (x ∷ ps)) ≡ sort_texts (keep nonempty (y ∷ qs))
unfolding sort_texts
sort_texts-keep-cons [] y ps qs e h = rw (← e) h
sort_texts-keep-cons (c ∷ x) y ps qs e h = rw (← e, h) refl

sort_texts-keep-swap :
    (x y : Text) (ps : List Text)
    → sort_texts (keep nonempty (x ∷ y ∷ ps)) ≡ sort_texts (keep nonempty (y ∷ x ∷ ps))
unfolding sort_texts
sort_texts-keep-swap [] [] ps = refl
sort_texts-keep-swap [] (d ∷ y) ps = refl
sort_texts-keep-swap (c ∷ x) [] ps = refl
sort_texts-keep-swap (c ∷ x) (d ∷ y) ps =
    insert_text_comm (c ∷ x) (d ∷ y) (sort_texts (keep nonempty ps))

-- Dropping the empty parameters and sorting the rest forgets their order.
sort_texts-keep_of_Permᴰ :
    {ps qs : List Text}
    → Permᴰ ps qs
    → sort_texts (keep nonempty ps) ≡ sort_texts (keep nonempty qs)
unfolding sort_texts
sort_texts-keep_of_Permᴰ Permᴰ.nil = refl
sort_texts-keep_of_Permᴰ (Permᴰ.cons {a} {b} {l₁} {l₂} e d) =
    sort_texts-keep-cons a b l₁ l₂ e (sort_texts-keep_of_Permᴰ d)
sort_texts-keep_of_Permᴰ (Permᴰ.swap {a} {b} {l = l} e f) =
    rw (← e, ← f) (sort_texts-keep-swap a b l)
sort_texts-keep_of_Permᴰ (Permᴰ.trans d e) = sort_texts-keep_of_Permᴰ d ∙ sort_texts-keep_of_Permᴰ e

-- Two URLs of one question mark each, with the same path, whose queries hold the same parameters,
-- each as often, in whatever order, have the same key.
pub build_cache_key_of_Permᴰ :
    (route_name method path p q : Text)
    → has b'?' path ≡ false
    → has b'?' p ≡ false
    → has b'?' q ≡ false
    → Permᴰ (split b'&' p) (split b'&' q)
    → build_cache_key route_name method (path ++ b'?' ∷ p)
      ≡ build_cache_key route_name method (path ++ b'?' ∷ q)
unfolding build_cache_key sorted_query
build_cache_key_of_Permᴰ route_name method path p q h k l d =
    rw
      (
        split-append b'?' path p h,
        split-append b'?' path q h,
        split_of_has b'?' p k,
        split_of_has b'?' q l,
        sort_texts-keep_of_Permᴰ d,
      )
      refl

-- What follows a second question mark of a URL is no part of its key: two URLs that differ only
-- there share an entry.
pub build_cache_key-second_mark :
    (route_name method path p rest : Text)
    → has b'?' path ≡ false
    → has b'?' p ≡ false
    → build_cache_key route_name method (path ++ b'?' ∷ (p ++ b'?' ∷ rest))
      ≡ build_cache_key route_name method (path ++ b'?' ∷ p)
unfolding build_cache_key
build_cache_key-second_mark route_name method path p rest h k =
    rw
      (
        split-append b'?' path (p ++ b'?' ∷ rest) h,
        split-append b'?' p rest k,
        split-append b'?' path p h,
        split_of_has b'?' p k,
      )
      refl
