-- ===== src/Admin/Writes/Endpoints.antt =====
-- How each endpoint of src/routes/admin.routes.ts ends.
use mathlib.Core.Path.{subst}
use ts_api_gateway.Admin.{
  route_data, policy_data, admin_error, empty_payload, AdminReply, answer_with, Stamp, failed,
  get_route, check_create, write_create, create_route, update_route, delete_route, create_policy,
  remove_policy,
}
use ts_api_gateway.Admin.Validation.{
  RouteBody, RouteChanges, PolicyBody, parse_create_route, parse_update_route, parse_create_policy,
}
use ts_api_gateway.Admin.Writes.{inserts, changes, drops, upserts, removes, Ends}
use ts_api_gateway.Common.{
  Bool-cases, Option-cases, ◌≤◌, ◌≡◌, sym, ◌⊎◌, inl, inr, not, ◌&&◌, none, some, ◌++◌, arith, Text,
  codes,
}
use ts_api_gateway.ErrorHandler.{error_handler}
use ts_api_gateway.Migrations.Applied.{missing}
use ts_api_gateway.Models.{Route}
use ts_api_gateway.Proxy.{Thrown, resolved, thrown}
use ts_api_gateway.Storage.{Tables}
use ts_api_gateway.Storage.Constraints.{
  unique_violation, foreign_key_violation, present, held_by_other, insert_route, change_route,
  upsert_policy,
}
use ts_api_gateway.Storage.Policies.{
  CreatePolicyDto, policy_by_id, find_by_route_id, upsert, delete_policy,
}
use ts_api_gateway.Storage.Routes.{
  CreateRouteDto, find_by_id, find_by_name, create, merged, update, delete,
}

module _ (stamp : Stamp) (tables : Tables) where
  pub write_create-Ends :
      (body : RouteBody) (dto : CreateRouteDto)
      → parse_create_route body ≡ some dto
      → Ends stamp tables (write_create stamp dto tables)
  unfolding write_create insert_route
  write_create-Ends body dto good = elim (Option-cases (find_by_id stamp.row_id tables)) [
    | inr (row, taken) ↦ inl (ground (arith, taken), ground (arith, taken))
    | inl fresh_id ↦ elim (Option-cases (find_by_name dto.name tables)) [
      | inr (row, taken) ↦ inl (ground (arith, fresh_id, taken), ground (arith, fresh_id, taken))
      | inl free ↦ inr (
        (create stamp.row_id stamp.now dto tables).1,
        answer_with 201 (route_data (create stamp.row_id stamp.now dto tables).0),
        omega arith,
        inserts body dto good fresh_id free,
        ground (arith, fresh_id, free),
      )
    ]
  ]

  -- The checks refuse, or pass on a body that is valid and whose name is free.
  pub check_create-cases :
      (body : RouteBody)
      → ((reply : AdminReply) × (check_create body tables ≡ inl reply) × (400 ≤ reply.status_code))
        ⊎ ((dto : CreateRouteDto) × (check_create body tables ≡ inr dto)
            × (parse_create_route body ≡ some dto)
            × (find_by_name dto.name tables ≡ none))
  unfolding check_create
  check_create-cases body = elim (Option-cases (parse_create_route body)) [
    | inl bad ↦ inl (
      answer_with 400 (admin_error (codes "Validation failed")),
      ground (arith, bad),
      omega arith,
    )
    | inr (dto, good) ↦ elim (Option-cases (find_by_name dto.name tables)) [
      | inr (row, taken) ↦ inl (
        answer_with 409 (admin_error (codes "Route '" ++ (dto.name ++ codes "' already exists"))),
        ground (arith, good, taken),
        omega arith,
      )
      | inl free ↦ inr (dto, ground (arith, good, free), good, free)
    ]
  ]

  pub create_route-Ends : (body : RouteBody) → Ends stamp tables (create_route stamp body tables)
  unfolding create_route
  create_route-Ends body = elim (check_create-cases body) [
    | inl (reply, stop, le) ↦ inl (ground (arith, stop), ground (arith, stop))
    | inr (dto, go_on, good, free) ↦
        let same : create_route stamp body tables ≡ write_create stamp dto tables =
          ground (arith, go_on) in
        subst (Ends stamp tables) (sym same) (write_create-Ends body dto good)
  ]

  pub update_route-Ends :
      (id : Text) (body : RouteChanges) → Ends stamp tables (update_route stamp id body tables)
  unfolding update_route change_route update
  update_route-Ends id body = elim (Option-cases (parse_update_route body)) [
    | inl bad ↦ inl (ground (arith, bad), ground (arith, bad))
    | inr (dto, good) ↦ elim (Option-cases (find_by_id id tables)) [
      | inl missing ↦ inl (ground (arith, good, missing), ground (arith, good, missing))
      | inr (existing, found) ↦
          elim (Option-cases (held_by_other id (merged stamp.now dto existing).name tables)) [
            | inr (row, taken) ↦
                inl (ground (arith, good, found, taken), ground (arith, good, found, taken))
            | inl free ↦ inr (
              (update id stamp.now dto tables).1,
              answer_with 200 (route_data (merged stamp.now dto existing)),
              omega arith,
              changes id body dto existing good found free,
              ground (arith, good, found, free),
            )
          ]
    ]
  ]

  pub delete_route-Ends : (id : Text) → Ends stamp tables (delete_route stamp id tables)
  unfolding delete_route delete
  delete_route-Ends id = elim (Option-cases (find_by_id id tables)) [
    | inl missing ↦ inl (ground (arith, missing), ground (arith, missing))
    | inr (existing, found) ↦ inr (
      (delete id tables).1,
      answer_with 204 empty_payload,
      omega arith,
      drops id existing found,
      ground (arith, found),
    )
  ]

  -- The write of a policy is refused, or goes through for a route that is there.
  upsert_policy-cases :
      (route_id : Text) (dto : CreatePolicyDto)
      → let result = upsert_policy stamp.row_id stamp.now route_id dto tables in
        ((err : Thrown) × (result ≡ (thrown err, tables)) × (400 ≤ (failed err).status_code))
        ⊎ ((route : Route) × (find_by_id route_id tables ≡ some route)
            × (let (row, tables') = upsert stamp.row_id stamp.now route_id dto tables in
                result ≡ (resolved row, tables')))
  unfolding upsert_policy error_handler
  upsert_policy-cases route_id dto = elim (Option-cases (find_by_id route_id tables)) [
    | inl missing ↦ inl (foreign_key_violation, ground (arith, missing), omega arith)
    | inr (route, found) ↦
        let clash =
          present (policy_by_id stamp.row_id tables)
          && not (present (find_by_route_id route_id tables)) in
        elim (Bool-cases clash) [
          | inl taken ↦ inl (unique_violation, ground (arith, found, taken), omega arith)
          | inr free ↦ inr (route, found, ground (arith, found, free))
        ]
  ]

  pub create_policy-Ends : (body : PolicyBody) → Ends stamp tables (create_policy stamp body tables)
  unfolding create_policy
  create_policy-Ends body = elim (Option-cases (parse_create_policy body)) [
    | inl bad ↦ inl (ground (arith, bad), ground (arith, bad))
    | inr (dto, good) ↦ elim (Option-cases (find_by_name dto.route tables)) [
      | inl missing ↦ inl (ground (arith, good, missing), ground (arith, good, missing))
      | inr (route, named) ↦ elim (upsert_policy-cases route.id dto) [
        | inl (err, stop, le) ↦
            inl (ground (arith, good, named, stop, le), ground (arith, good, named, stop))
        | inr (row, found, go_on) ↦ inr (
          (upsert stamp.row_id stamp.now route.id dto tables).1,
          answer_with 201 (policy_data (upsert stamp.row_id stamp.now route.id dto tables).0),
          omega arith,
          upserts route.id body dto row good found,
          ground (arith, good, named, go_on),
        )
      ]
    ]
  ]

  pub remove_policy-Ends : (id : Text) → Ends stamp tables (remove_policy stamp id tables)
  unfolding remove_policy delete_policy
  remove_policy-Ends id = elim (Option-cases (policy_by_id id tables)) [
    | inl missing ↦ inl (ground (arith, missing), ground (arith, missing))
    | inr (existing, found) ↦ inr (
      (delete_policy id tables).1,
      answer_with 204 empty_payload,
      omega arith,
      removes id existing found,
      ground (arith, found),
    )
  ]

  pub get_route-same : (id : Text) → (get_route id tables).1 ≡ tables
  unfolding get_route
  get_route-same id = elim (Option-cases (find_by_id id tables)) [
    | inl e ↦ ground (arith, e)
    | inr (route, e) ↦ ground (arith, e)
  ]
