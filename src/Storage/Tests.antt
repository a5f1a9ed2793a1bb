-- ===== src/Storage/Tests.antt =====
-- Small tables, and the theorems at concrete inputs.
use ts_api_gateway.Common.{
  if◌then◌else◌, ◌≡◌, refl, Bool, true, false, none, some, [], ◌∷◌, Text, codes, text_eq,
}
use ts_api_gateway.Models.{Route}
use ts_api_gateway.Storage.{Tables}
use ts_api_gateway.Storage.Policies.{CreatePolicyDto, find_by_route_id, upsert}
use ts_api_gateway.Storage.Routes.{UpdateRouteDto, find_by_id, find_enabled, update, delete}
use ts_api_gateway.Storage.Rows.{find_by_id-update, find_by_route_id-upsert, find-delete}

abbrev stored_route : Text → Text → Bool → Route
stored_route name prefix enabled = record {
  id = name;
  name = name;
  path_prefix = prefix;
  upstream_host = codes "upstream";
  upstream_port = 3000;
  strip_path = false;
  connect_timeout_ms = 200;
  request_timeout_ms = 2000;
  retries = 2;
  enabled = enabled;
  canary_upstream_host = none;
  canary_upstream_port = none;
  canary_weight = none;
  created_at = 0;
  updated_at = 0;
}

abbrev two_routes : Tables
two_routes = record {
  routes =
      stored_route (codes "a") (codes "/a") true
      ∷ stored_route (codes "b") (codes "/a/b") true
      ∷ stored_route (codes "c") (codes "/a/b/c") false
      ∷ [];
  policies = [];
  versions = record { id = 1; version = 1; checksum = codes "x"; published_at = 0 } ∷ [];
}

longest_first :
    find_enabled two_routes
    ≡ stored_route (codes "b") (codes "/a/b") true ∷ stored_route (codes "a") (codes "/a") true ∷ []
unfolding find_enabled
longest_first = refl

abbrev rename_only : UpdateRouteDto
rename_only = record {
  name = some (codes "renamed");
  path_prefix = none;
  upstream = none;
  strip_path = none;
  connect_timeout_ms = none;
  request_timeout_ms = none;
  retries = none;
  enabled = none;
  canary = none;
}

find_by_id-update_example :
    find_by_id (codes "b") (update (codes "a") 5 rename_only two_routes).1 ≡ (
      if text_eq (codes "a") (codes "b")
      then (update (codes "a") 5 rename_only two_routes).0
      else find_by_id (codes "b") two_routes)
find_by_id-update_example = find_by_id-update (codes "a") (codes "b") 5 rename_only two_routes

abbrev needs_token : CreatePolicyDto
needs_token = record {
  route = codes "a";
  auth_required = some true;
  rate_limit = none;
  cache_ttl_seconds = some 30;
}

find_by_route_id-upsert_example :
    find_by_route_id (codes "a") (upsert (codes "p") 5 (codes "a") needs_token two_routes).1 ≡ (
      if text_eq (codes "a") (codes "a")
      then some (upsert (codes "p") 5 (codes "a") needs_token two_routes).0
      else find_by_route_id (codes "a") two_routes)
find_by_route_id-upsert_example =
    find_by_route_id-upsert (codes "p") (codes "a") 5 (codes "a") needs_token two_routes

find-delete_example :
    (find_by_id (codes "b") (delete (codes "a") two_routes).1
      ≡ (if text_eq (codes "a") (codes "b") then none else find_by_id (codes "b") two_routes))
    × (find_by_route_id (codes "b") (delete (codes "a") two_routes).1 ≡ (
        if text_eq (codes "a") (codes "b") then none else find_by_route_id (codes "b") two_routes))
unfolding delete
find-delete_example = find-delete (codes "a") (codes "b") two_routes refl
