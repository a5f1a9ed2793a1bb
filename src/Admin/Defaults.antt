-- ===== src/Admin/Defaults.antt =====
-- What the defaults of the schema of `PUT /admin/routes/:id` do to an update.
use ts_api_gateway.Admin.{
  AdminPayload, route_data, AdminReply, answer_with, Stamp, publish, update_route,
}
use ts_api_gateway.Admin.Bodies.{
  typed, as_text, as_boolean, as_integer, as_match, as_upstream, as_timeouts, decode_changes,
  invalid, put_route,
}
use ts_api_gateway.Admin.Validation.{RouteChanges, parse_update_route}
use ts_api_gateway.Admin.Writes.Requests.{publish-answered}
use ts_api_gateway.Common.{
  ◌>>=◌, Option-cases, ◌≡◌, refl, sym, ap, ◌∙◌, ◌≢◌, inl, inr, false, Option, none, some, [], arith,
  Text, codes,
}
use ts_api_gateway.ErrorHandler.{error_handler}
use ts_api_gateway.Models.{Route}
use ts_api_gateway.Proxy.{Thrown, error, not_an_error, Outcome-cases}
use ts_api_gateway.Schemas.{
  bool_json, number_json, Fields, get, integer_schema, boolean_schema, schema_at, Validator,
}
use ts_api_gateway.Schemas.Route.{update_route_properties, update_route_body}
use ts_api_gateway.Storage.{Tables}
use ts_api_gateway.Storage.Constraints.{held_by_other, change_route}
use ts_api_gateway.Storage.Routes.{UpdateRouteDto, find_by_id, merged, update}

bound {ℓ κ} :
    {A : Type ℓ} {B : Type κ} (m : Option A) (f : A → Option B) {b : B}
    → (m >>= f) ≡ some b
    → (a : A) × (m ≡ some a) × (f a ≡ some b)
bound none f e = cc
bound (some a) f e = (a, refl, e)

-- What the decoded changes say of the two fields that have a default.
decode_changes-fields :
    (fields : Fields) (wanted : RouteChanges)
    → decode_changes fields ≡ some wanted
    → (typed as_boolean (get (codes "strip_path") fields) ≡ some wanted.strip_path)
      × (typed as_integer (get (codes "retries") fields) ≡ some wanted.retries)
unfolding decode_changes
decode_changes-fields fields wanted e =
    let (strip_path, strip_is, e1) =
      bound (typed as_boolean (get (codes "strip_path") fields)) _ e in
    let (retries, retries_is, e2) = bound (typed as_integer (get (codes "retries") fields)) _ e1 in
    let (name, name_is, e3) = bound (typed as_text (get (codes "name") fields)) _ e2 in
    let (path_prefix, prefix_is, e4) = bound (typed as_match (get (codes "match") fields)) _ e3 in
    let (upstream, upstream_is, e5) =
      bound (typed as_upstream (get (codes "upstream") fields)) _ e4 in
    let (timeouts, timeouts_is, e6) =
      bound (typed as_timeouts (get (codes "timeouts_ms") fields)) _ e5 in
    let (enabled, enabled_is, e7) = bound (typed as_boolean (get (codes "enabled") fields)) _ e6 in
    (strip_is ∙ ap some (ground (arith, e7)), retries_is ∙ ap some (ground (arith, e7)))

-- A successful update answers with the changes merged into the row that was there.
update_route-merges :
    (stamp : Stamp) (id : Text) (body : RouteChanges) (tables : Tables) (route : Route)
    → (update_route stamp id body tables).0 ≡ answer_with 200 (route_data route)
    → (dto : UpdateRouteDto) × (existing : Route) × (parse_update_route body ≡ some dto)
      × (route ≡ merged stamp.now dto existing)
unfolding update_route change_route update
update_route-merges stamp id body tables route e = elim (Option-cases (parse_update_route body)) [
  | inl bad ↦ absurd (ground (arith, bad, e))
  | inr (dto, good) ↦ elim (Option-cases (find_by_id id tables)) [
    | inl missing ↦ absurd (ground (arith, good, missing, e))
    | inr (existing, found) ↦
        elim (Option-cases (held_by_other id (merged stamp.now dto existing).name tables)) [
          | inr (row, taken) ↦ absurd (ground (arith, good, found, taken, e))
          | inl free ↦
              let reply = answer_with 200 (route_data (merged stamp.now dto existing)) in
              let told : (update_route stamp id body tables)
                  ≡ publish stamp reply (update id stamp.now dto tables).1 =
                ground (arith, good, found, free) in
              let told_reply = ap (λ (r : AdminReply × Tables). r.0) told in
              let answered =
                publish-answered stamp reply (update id stamp.now dto tables).1
                  (omega (arith, ap (λ (r : AdminReply). r.status_code) (sym told_reply ∙ e))) in
              (dto, existing, good, cc (e, told_reply, answered))
        ]
  ]
]

parse_update_route-fields :
    (body : RouteChanges) (dto : UpdateRouteDto)
    → parse_update_route body ≡ some dto
    → (dto.strip_path ≡ body.strip_path) × (dto.retries ≡ body.retries)
unfolding parse_update_route
parse_update_route-fields body dto e = (ground (arith, e), ground (arith, e))

invalid-ne-200 : (err : Thrown) (payload : AdminPayload) → invalid err ≢ answer_with 200 payload
unfolding error_handler
invalid-ne-200 (error name message code) payload e =
    omega (arith, ap (λ (r : AdminReply). r.status_code) e)
invalid-ne-200 not_an_error payload e = omega (arith, ap (λ (r : AdminReply). r.status_code) e)

-- A `PUT` that leaves `strip_path` and `retries` out and succeeds answers with a route whose prefix
-- is kept and which is not retried, whatever the row said before.
pub put_route-defaults :
    (validator : Validator) (stamp : Stamp) (id : Text) (body : Fields) (tables : Tables)
    (route : Route)
    → get (codes "strip_path") body ≡ none
    → get (codes "retries") body ≡ none
    → (put_route validator stamp id body tables).0 ≡ answer_with 200 (route_data route)
    → (route.strip_path ≡ false) × (route.retries ≡ 0)
unfolding put_route
put_route-defaults validator stamp id body tables route no_strip no_retries e =
    elim (Outcome-cases (validator.validate update_route_body body)) [
      | inr (err, refused) ↦
          absurd (invalid-ne-200 err (route_data route) (ground (arith, refused, e)))
      | inl (filled, passed) ↦ elim (Option-cases (decode_changes filled)) [
        | inl bad ↦ absurd (ground (arith, passed, bad, e))
        | inr (wanted, good) ↦
            let (strip_is, retries_is) = decode_changes-fields filled wanted good in
            let filled_in = validator.fills [] update_route_properties body filled passed in
            let strip_at =
              filled_in (codes "strip_path") (boolean_schema (some false)) (bool_json false)
                (unfold schema_at in refl) refl no_strip in
            let retries_at =
              filled_in (codes "retries") (integer_schema (some 0) (some 10) (some 0))
                (number_json 0) (unfold schema_at in refl) refl no_retries in
            let (dto, existing, parsed, same) =
              update_route-merges stamp id wanted tables route (ground (arith, passed, good, e)) in
            let (strip_kept, retries_kept) = parse_update_route-fields wanted dto parsed in
            (
              ground (arith, strip_is, strip_at, strip_kept, same),
              ground (arith, retries_is, retries_at, retries_kept, same),
            )
      ]
    ]
