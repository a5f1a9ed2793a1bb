-- ===== src/Router.antt =====
-- src/services/router/route-matcher.ts: the choice of a route for a request path.
pub mod Cover
pub mod Specificity
mod Tests
use ts_api_gateway.Common.{
  if◌then◌else◌, length, drop, not, ◌&&◌, Option, none, some, List, [], ◌∷◌, Text, codes, text_eq,
  starts_with,
}
use ts_api_gateway.Models.{Route}

pub record MatchResult : Type 0 where
  pub route : Route
  pub upstream_path : Text

-- `afterPrefix || '/'`
abbrev pub or_slash : Text → Text
or_slash [] = codes "/"
or_slash (a ∷ s) = a ∷ s

unfoldable pub match_route : Text → List Route → Option MatchResult
unfolding starts_with text_eq
match_route path [] = none
match_route path (route ∷ routes) =
    let continue = match_route path routes in
    let after_prefix = drop (length route.path_prefix) path in
    if not (starts_with path route.path_prefix)
    then continue
    else if not (text_eq after_prefix []) && not (starts_with after_prefix (codes "/"))
    then continue
    else some (record {
      route = route;
      upstream_path = if route.strip_path then or_slash after_prefix else path;
    })
