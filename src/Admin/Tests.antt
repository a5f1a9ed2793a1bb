-- ===== src/Admin/Tests.antt =====
-- Admin requests on small tables, and the theorems at concrete inputs.
use ts_api_gateway.Admin.{
  route_data, admin_error, answer_with, goes_through, breaks_off, Stamp, publish, check_create,
  write_create, create_route, update_route, creates_route, handle, admin,
}
use ts_api_gateway.Admin.Bodies.{decode_changes, put_route}
use ts_api_gateway.Admin.Canaries.{handle_all-IsPlain}
use ts_api_gateway.Admin.Defaults.{put_route-defaults}
use ts_api_gateway.Admin.Keyed.{handle_all-IsKeyed, Races, write_create-Races}
use ts_api_gateway.Admin.Publishing.{Settles, handle-Settles, admin-unauthorized}
use ts_api_gateway.Admin.Validation.{RouteBody, parse_create_route, parse_update_route}
use ts_api_gateway.Admin.Writes.{is_write, handle_all}
use ts_api_gateway.Common.{length, ◌≡◌, refl, ◌⊎◌, true, false, none, some, [], ◌∷◌, codes, lookup}
use ts_api_gateway.ErrorHandler.{error_handler}
use ts_api_gateway.Models.{Route}
use ts_api_gateway.Schemas.{bool_json, Fields, no_fields, field, get}
use ts_api_gateway.Schemas.Filling.{fill, accept, filling}
use ts_api_gateway.Storage.{Tables}
use ts_api_gateway.Storage.Constraints.{held_by_other, insert_route, change_route}
use ts_api_gateway.Storage.Keyed.{IsKeyed}
use ts_api_gateway.Storage.Plain.{IsPlain}
use ts_api_gateway.Storage.Routes.{CreateRouteDto, find_by_id, find_by_name, create, update}
use ts_api_gateway.Storage.Versions.{latest_version, bump}

abbrev no_rows : Tables
no_rows = record { routes = []; policies = []; versions = [] }

abbrev first_stamp : Stamp
first_stamp = record {
  row_id = codes "r1";
  version_id = 1;
  checksum = codes "c";
  now = 10;
  bump_end = goes_through;
}

abbrev broken_stamp : Stamp
broken_stamp = record first_stamp { bump_end = breaks_off }

abbrev orders_body : RouteBody
orders_body = record {
  name = codes "orders";
  path_prefix = codes "/v1/orders";
  host = codes "upstream";
  port = 3000;
  strip_path = none;
  connect = none;
  request = none;
  retries = some 3;
  canary = some (record { host = codes "next"; port = 3001; weight = 10 });
}

created :
    ((handle first_stamp (creates_route orders_body) no_rows).0.status_code ≡ 201)
    × (latest_version (handle first_stamp (creates_route orders_body) no_rows).1 ≡ 1)
unfolding handle create_route parse_create_route create bump latest_version find_by_name find_by_id
    check_create write_create insert_route publish
created = (refl, refl)

handle-Settles_example :
    ((is_write (creates_route orders_body) ≡ false)
      × ((handle first_stamp (creates_route orders_body) no_rows).1 ≡ no_rows))
    ⊎ ((is_write (creates_route orders_body) ≡ true)
        × Settles first_stamp no_rows (handle first_stamp (creates_route orders_body) no_rows))
handle-Settles_example = handle-Settles first_stamp (creates_route orders_body) no_rows

-- A creation whose version could not be inserted: the route is there, the version is not.
unpublished :
    let result = handle broken_stamp (creates_route orders_body) no_rows in
    (result.0.status_code ≡ 500) × (length result.1.routes ≡ 1) × (latest_version result.1 ≡ 0)
unfolding handle create_route parse_create_route create latest_version find_by_name find_by_id
    check_create write_create insert_route publish error_handler
unpublished = (refl, refl, refl)

admin-unauthorized_example :
    let result =
      admin
        (λ request. none)
        (codes "0123456789abcdef")
        []
        first_stamp
        (creates_route orders_body)
        no_rows in
    (result.0.status_code ≡ 401) × (result.1 ≡ no_rows)
unfolding lookup
admin-unauthorized_example =
    admin-unauthorized (λ request. none) (codes "0123456789abcdef") [] first_stamp
      (creates_route orders_body) no_rows (λ e. cc e)

handle_all-IsPlain_example :
    IsPlain (handle_all ((first_stamp, creates_route orders_body) ∷ []) no_rows)
handle_all-IsPlain_example =
    handle_all-IsPlain ((first_stamp, creates_route orders_body) ∷ []) no_rows
      (record { routes = tt; policies = tt })

handle_all-IsKeyed_example :
    IsKeyed (handle_all ((first_stamp, creates_route orders_body) ∷ []) no_rows)
handle_all-IsKeyed_example =
    handle_all-IsKeyed ((first_stamp, creates_route orders_body) ∷ []) no_rows
      (record { id_apart = tt; name_apart = tt; one_policy = tt; owned = tt })

abbrev second_stamp : Stamp
second_stamp = record {
  row_id = codes "r2";
  version_id = 2;
  checksum = codes "d";
  now = 11;
  bump_end = goes_through;
}

abbrev orders_dto : CreateRouteDto
orders_dto = record {
  name = codes "orders";
  path_prefix = codes "/v1/orders";
  upstream_host = codes "upstream";
  upstream_port = 3000;
  strip_path = none;
  connect_timeout_ms = none;
  request_timeout_ms = none;
  retries = some 3;
  canary = none;
}

-- Two creations of one name that were both checked on the empty tables.
second_loses :
    write_create second_stamp orders_dto (write_create first_stamp orders_dto no_rows).1 ≡ (
      answer_with 409 (admin_error (codes "Resource already exists")),
      (write_create first_stamp orders_dto no_rows).1,
    )
unfolding create bump latest_version find_by_name find_by_id write_create insert_route publish
second_loses = refl

write_create-Races_example :
    Races second_stamp orders_dto
      (write_create first_stamp orders_dto no_rows).1
      (write_create second_stamp orders_dto (write_create first_stamp orders_dto no_rows).1)
write_create-Races_example =
    write_create-Races second_stamp orders_dto (write_create first_stamp orders_dto no_rows).1

-- A route whose prefix is stripped and which is retried three times, and the body `{ "enabled":
-- false }`.
abbrev stripping : Route
stripping = record {
  id = codes "r1";
  name = codes "orders";
  path_prefix = codes "/v1";
  upstream_host = codes "up";
  upstream_port = 80;
  strip_path = true;
  connect_timeout_ms = 200;
  request_timeout_ms = 2000;
  retries = 3;
  enabled = true;
  canary_upstream_host = none;
  canary_upstream_port = none;
  canary_weight = none;
  created_at = 0;
  updated_at = 0;
}

abbrev one_route : Tables
one_route = record { routes = stripping ∷ []; policies = []; versions = [] }

abbrev disabling : Fields
disabling = field (codes "enabled") (bool_json false) no_fields

abbrev disabled : Route
disabled = record stripping { enabled = false; strip_path = false; retries = 0; updated_at = 11 }

disable_resets :
    (put_route filling second_stamp (codes "r1") disabling one_route).0
    ≡ answer_with 200 (route_data disabled)
unfolding put_route accept fill decode_changes update_route parse_update_route change_route
    find_by_id held_by_other update publish
disable_resets = refl

put_route-defaults_example : (disabled.strip_path ≡ false) × (disabled.retries ≡ 0)
unfolding get
put_route-defaults_example =
    put_route-defaults filling second_stamp (codes "r1") disabling one_route disabled refl refl
      disable_resets
