-- ===== src/Admin/Canaries.antt =====
-- What the admin API cannot set: the schemas drop the canary of a route and the cache time of a
-- policy, which the repositories would store.
use ts_api_gateway.Admin.{Stamp, bumped, AdminRequest}
use ts_api_gateway.Admin.Validation.{
  RouteBody, RouteChanges, PolicyBody, parse_create_route, parse_update_route, parse_create_policy,
}
use ts_api_gateway.Admin.Writes.{Write, inserts, changes, drops, upserts, removes, handle_all}
use ts_api_gateway.Admin.Writes.Requests.{handle_all-keeps}
use ts_api_gateway.Common.{if◌then◌else◌, ◌≡◌, ap, Bool, true, false, none, some, List, arith}
use ts_api_gateway.Storage.{Tables}
use ts_api_gateway.Storage.Plain.{
  IsPlain, create-IsPlain, update-IsPlain, delete-IsPlain, upsert-IsPlain, delete_policy-IsPlain,
}
use ts_api_gateway.Storage.Policies.{CreatePolicyDto}
use ts_api_gateway.Storage.Routes.{CreateRouteDto, UpdateRouteDto}
use ts_api_gateway.Storage.Versions.{bump}

-- A published version changes no route and no policy.
bumped-IsPlain : (stamp : Stamp) (tables : Tables) → IsPlain tables → IsPlain (bumped stamp tables)
unfolding bump
bumped-IsPlain stamp tables h = record { routes = h.routes; policies = h.policies }

gate : {A : Type 0} (b : Bool) (d x : A) → (if b then some d else none) ≡ some x → x ≡ d
gate true d x e = cc
gate false d x e = cc

parse_create_route-canary :
    (body : RouteBody) (dto : CreateRouteDto)
    → parse_create_route body ≡ some dto
    → dto.canary ≡ none
unfolding parse_create_route
parse_create_route-canary body dto e = ap (λ (d : CreateRouteDto). d.canary) (gate _ _ dto e)

parse_update_route-canary :
    (body : RouteChanges) (dto : UpdateRouteDto)
    → parse_update_route body ≡ some dto
    → dto.canary ≡ none
unfolding parse_update_route
parse_update_route-canary body dto e = ap (λ (d : UpdateRouteDto). d.canary) (gate _ _ dto e)

parse_create_policy-cache_ttl_seconds :
    (body : PolicyBody) (dto : CreatePolicyDto)
    → parse_create_policy body ≡ some dto
    → dto.cache_ttl_seconds ≡ none
unfolding parse_create_policy
parse_create_policy-cache_ttl_seconds body dto e = ground (arith, e)

Write-IsPlain :
    (stamp : Stamp) (tables written : Tables)
    → Write stamp tables written
    → IsPlain tables
    → IsPlain written
Write-IsPlain stamp tables _ (inserts body dto good fresh_id free) h =
    create-IsPlain tables h stamp.row_id stamp.now dto (parse_create_route-canary body dto good)
Write-IsPlain stamp tables _ (changes id body dto existing good found free) h =
    update-IsPlain tables h id stamp.now dto (parse_update_route-canary body dto good)
Write-IsPlain stamp tables _ (drops id existing found) h = delete-IsPlain tables h id
Write-IsPlain stamp tables _ (upserts route_id body dto route good found) h =
    upsert-IsPlain tables h stamp.row_id stamp.now route_id dto
      (parse_create_policy-cache_ttl_seconds body dto good)
Write-IsPlain stamp tables _ (removes id existing found) h = delete_policy-IsPlain tables h id

-- From tables with no canary and no cache time, no sequence of admin requests reaches tables with
-- one, whatever the bodies ask for.
pub handle_all-IsPlain :
    (requests : List (Stamp × AdminRequest)) (tables : Tables)
    → IsPlain tables
    → IsPlain (handle_all requests tables)
handle_all-IsPlain = handle_all-keeps IsPlain Write-IsPlain bumped-IsPlain
