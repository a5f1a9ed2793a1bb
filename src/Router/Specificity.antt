-- ===== src/Router/Specificity.antt =====
-- The most specific route wins, as long as the routes come longest prefix first.
-- The order in which `findEnabled` returns the routes: no prefix is longer than one before it.
use mathlib.Core.List.{append_cancel_left, append-nil}
use ts_api_gateway.Common.{
  length, All, All-weaken, ℕ, ◌≤◌, ◌≡◌, sym, ap, ◌∙◌, ◌≢◌, inl, inr, none, some, List, [], ◌∷◌,
  ◌++◌, arith, Text,
}
use ts_api_gateway.Models.{Route}
use ts_api_gateway.Router.{MatchResult, match_route}
use ts_api_gateway.Router.Cover.{
  Covers, FirstCover, here, later, match_route-FirstCover_iff, match_route-eq-none_iff,
}

abbrev pub LongestFirst : List Route → Type 0
LongestFirst [] = Unit
LongestFirst (r ∷ rs) = All (λ s. length s.path_prefix ≤ length r.path_prefix) rs × LongestFirst rs

-- No listed route that covers the path has a longer prefix than the chosen one.
abbrev pub MostSpecific : Text → Route → List Route → Type 0
MostSpecific path chosen routes =
    All (λ s. Covers s path → length s.path_prefix ≤ length chosen.path_prefix) routes

FirstCover-MostSpecific :
    (path : Text) (m : MatchResult) (routes : List Route)
    → LongestFirst routes
    → FirstCover path m routes
    → MostSpecific path m.route routes
FirstCover-MostSpecific path m [] h f = tt
FirstCover-MostSpecific path m (r ∷ rs) h (here c same up) =
    let e = ap (λ (x : Route). length x.path_prefix) same in
    (
      (λ _. omega (arith, e)),
      All-weaken (λ s. length s.path_prefix ≤ length r.path_prefix)
          (λ s. Covers s path → length s.path_prefix ≤ length m.route.path_prefix) rs
          (λ _ p _. rw e p) h.0,
    )
FirstCover-MostSpecific path m (r ∷ rs) h (later other f) =
    ((λ c. absurd (other c)), FirstCover-MostSpecific path m rs h.1 f)

-- Over routes sorted longest prefix first, the matched route has the longest prefix of all the
-- listed routes that cover the path.
pub match_route-MostSpecific :
    (path : Text) (routes : List Route) (m : MatchResult)
    → LongestFirst routes
    → match_route path routes ≡ some m
    → MostSpecific path m.route routes
match_route-MostSpecific path routes m h e =
    FirstCover-MostSpecific path m routes h ((match_route-FirstCover_iff path routes m).0 e)

-- A path that continues a prefix with another character than a slash is not matched by that route;
-- for a prefix that itself ends in a slash, such as "/", that is every path one segment below it.
pub match_route-segment :
    (r : Route) (seg : Text) (c : ℕ)
    → c ≢ b'/'
    → match_route (r.path_prefix ++ (c ∷ seg)) (r ∷ []) ≡ none
match_route-segment r seg c other =
    (match_route-eq-none_iff (r.path_prefix ++ (c ∷ seg)) (r ∷ [])).1 (not_covered, tt)
  where
    not_covered : ¬ Covers r (r.path_prefix ++ (c ∷ seg))
    not_covered (inl e) =
        cc (append_cancel_left r.path_prefix (c ∷ seg) [] (e ∙ sym (append-nil r.path_prefix)))
    not_covered (inr (rest, e)) =
        ground (arith, append_cancel_left r.path_prefix (c ∷ seg) (b'/' ∷ rest) e)
