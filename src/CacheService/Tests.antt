-- ===== src/CacheService/Tests.antt =====
-- The cache service over a list of keys.
use ts_api_gateway.CacheService.{route_prefix, invalidate_route}
use ts_api_gateway.CacheService.Invalidation.{invalidate_route-removes}
use ts_api_gateway.CacheService.Samples.{list_client, list_scans}
use ts_api_gateway.Common.{
  if◌then◌else◌, ◌≡◌, none, some, [], ◌∷◌, arith, Text, codes, starts_with, lookup, Dict,
}

abbrev two_routes : Dict Text
two_routes = (codes "gw:cache:a:GET:/x", codes "1") ∷ (codes "gw:cache:b:GET:/y", codes "2") ∷ []

invalidate_route-removes_example :
    (w' : Dict Text) × (invalidate_route list_client 1 (codes "a") two_routes ≡ some w')
    × (lookup (codes "gw:cache:a:GET:/x") w' ≡ (
        if starts_with (codes "gw:cache:a:GET:/x") (route_prefix (codes "a"))
        then none
        else lookup (codes "gw:cache:a:GET:/x") two_routes))
invalidate_route-removes_example =
    invalidate_route-removes list_client (codes "a") list_scans (codes "gw:cache:a:GET:/x") 1
      two_routes (omega arith)
