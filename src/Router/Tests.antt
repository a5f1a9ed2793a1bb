-- ===== src/Router/Tests.antt =====
-- Runs of the matcher on routes of the unit tests, and the theorems at concrete inputs.
use ts_api_gateway.Common.{
  ◌≡◌, refl, ◌↔◌, Bool, true, false, Option, none, some, List, [], ◌∷◌, Text, codes,
}
use ts_api_gateway.Models.{Route}
use ts_api_gateway.Router.{MatchResult, match_route}
use ts_api_gateway.Router.Cover.{FirstCover, match_route-FirstCover_iff}

abbrev pub sample_route : Text → Text → Bool → Route
sample_route name prefix strip = record {
  id = name;
  name = name;
  path_prefix = prefix;
  upstream_host = codes "upstream";
  upstream_port = 3000;
  strip_path = strip;
  connect_timeout_ms = 200;
  request_timeout_ms = 2000;
  retries = 2;
  enabled = true;
  canary_upstream_host = none;
  canary_upstream_port = none;
  canary_weight = none;
  created_at = 0;
  updated_at = 0;
}

abbrev premium : Route
premium = sample_route (codes "premium") (codes "/v1/orders/premium") false

abbrev orders : Route
orders = sample_route (codes "orders") (codes "/v1/orders") false

abbrev stripped : Route
stripped = sample_route (codes "api") (codes "/api") true

abbrev table : List Route
table = premium ∷ orders ∷ stripped ∷ []

abbrev found : Route → Text → Option MatchResult
found r up = some (record { route = r; upstream_path = up })

matches :
    (match_route (codes "/v1/orders/premium/1") table
      ≡ found premium (codes "/v1/orders/premium/1"))
    × (match_route (codes "/v1/orders/123") table ≡ found orders (codes "/v1/orders/123"))
    × (match_route (codes "/v1/ordersX") table ≡ none)
    × (match_route (codes "/api/users") table ≡ found stripped (codes "/users"))
    × (match_route (codes "/api") table ≡ found stripped (codes "/"))
unfolding match_route
matches = (refl, refl, refl, refl, refl)

match_route-FirstCover_iff_example :
    (match_route (codes "/api/users") table ≡ found stripped (codes "/users"))
    ↔ FirstCover
        (codes "/api/users")
        (record { route = stripped; upstream_path = codes "/users" })
        table
match_route-FirstCover_iff_example =
    match_route-FirstCover_iff (codes "/api/users") table
      (record { route = stripped; upstream_path = codes "/users" })

abbrev root : Route
root = sample_route (codes "root") (codes "/") false
