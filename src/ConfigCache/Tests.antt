-- ===== src/ConfigCache/Tests.antt =====
-- A load from small tables, and the theorems at concrete inputs.
use ts_api_gateway.Admin.{
  goes_through, breaks_off, Stamp, publish, delete_route, deletes_route, handle,
}
use ts_api_gateway.Admin.Writes.{drops}
use ts_api_gateway.Common.{
  ◌+◌, ◌<◌, ◌≡◌, refl, Bool, true, false, none, some, List, [], ◌∷◌, arith, Text, codes, text_eq,
  lookup,
}
use ts_api_gateway.ConfigCache.{load_from, load_config, check_from, check_and_reload}
use ts_api_gateway.ConfigCache.Freshness.{
  Event, admin_request, poll, after_events, check_and_reload-after_events,
  check_and_reload-load_from,
}
use ts_api_gateway.ConfigCache.Interleaving.{
  wrote, has_read, Moment, writes, reads, publishes, asks, checks, Reach, at_start, then_step,
  after_load, check_and_reload-Reach,
}
use ts_api_gateway.ConfigCache.Reload.{last_policy}
use ts_api_gateway.ConfigCache.Serving.{Routed, check_and_reload-Routed}
use ts_api_gateway.Models.{Route}
use ts_api_gateway.Router.{match_route}
use ts_api_gateway.Storage.{Tables}
use ts_api_gateway.Storage.Policies.{all_policies}
use ts_api_gateway.Storage.Routes.{find_by_id, find_enabled, delete}
use ts_api_gateway.Storage.Versions.{latest_version, insert_version_row}

abbrev row : Text → Text → Bool → Route
row name prefix enabled = record {
  id = name;
  name = name;
  path_prefix = prefix;
  upstream_host = codes "upstream";
  upstream_port = 3000;
  strip_path = false;
  connect_timeout_ms = 200;
  request_timeout_ms = 2000;
  retries = 2;
  enabled = enabled;
  canary_upstream_host = none;
  canary_upstream_port = none;
  canary_weight = none;
  created_at = 0;
  updated_at = 0;
}

abbrev nested : Tables
nested = record {
  routes =
      row (codes "outer") (codes "/a") true
      ∷ row (codes "inner") (codes "/a/b") true
      ∷ row (codes "off") (codes "/a/b/c") false
      ∷ [];
  policies = [];
  versions = record { id = 1; version = 1; checksum = codes "x"; published_at = 0 } ∷ [];
}

abbrev stamp : Stamp
stamp = record {
  row_id = codes "r";
  version_id = 2;
  checksum = codes "y";
  now = 7;
  bump_end = goes_through;
}

-- A deletion whose `bump` broke off is not seen, and a deletion that succeeds after it shows both.
abbrev broken : Stamp
broken = record stamp { bump_end = breaks_off }

abbrev missed : List Event
missed = poll ∷ admin_request broken (deletes_route (codes "inner")) ∷ poll ∷ []

still_old :
    (after_events missed (nested, load_config nested)).1.routes ≡ (load_config nested).routes
unfolding handle delete_route delete find_by_id text_eq publish check_and_reload check_from
    load_config latest_version find_enabled
still_old = refl

outer_deleted :
    (handle stamp
      (deletes_route (codes "outer"))
      (after_events missed (nested, load_config nested)).0).0.status_code
    < 300
unfolding handle delete_route delete find_by_id text_eq publish
outer_deleted = omega arith

check_and_reload-after_events_example :
    let (tables', cache) = after_events missed (nested, load_config nested) in
    let tables'' = (handle stamp (deletes_route (codes "outer")) tables').1 in
    let loaded = check_and_reload tables'' cache in
    (loaded.routes ≡ find_enabled tables'')
    × ((id : Text) → lookup id loaded.policies ≡ last_policy id (all_policies tables'') none)
    × (loaded.version ≡ latest_version tables' + 1)
check_and_reload-after_events_example =
    check_and_reload-after_events missed nested stamp (deletes_route (codes "outer")) refl
      outer_deleted

check_and_reload-load_from_example :
    let tables' = (handle stamp (deletes_route (codes "inner")) nested).1 in
    let late = load_from nested nested tables' in
    (check_and_reload tables' (load_from tables' tables' nested) ≡ load_config tables')
    × (check_and_reload tables' late ≡ late)
    × ((check_and_reload tables' late).routes ≡ find_enabled nested)
check_and_reload-load_from_example =
    check_and_reload-load_from stamp (deletes_route (codes "inner")) nested (λ e. cc e)

check_and_reload-Routed_example :
    let (tables', cache) =
      after_events
        (admin_request stamp (deletes_route (codes "inner")) ∷ [])
        (nested, load_config nested) in
    Routed tables'
      (codes "/a/b/c")
      (match_route (codes "/a/b/c") (check_and_reload tables' cache).routes)
check_and_reload-Routed_example =
    check_and_reload-Routed (admin_request stamp (deletes_route (codes "inner")) ∷ []) nested
      (codes "/a/b/c") ((λ e. cc e), tt)

-- Two requests delete a route each and read the same latest version, the gateway asks for the
-- latest version after the first insert, the second request inserts the same version once more, and
-- then the gateway decides and loads.
abbrev both_dropped : Tables
both_dropped = (delete (codes "outer") (delete (codes "inner") nested).1).1

abbrev first_published : Tables
first_published =
    (insert_version_row 2 (latest_version both_dropped + 1) (codes "y") 7 both_dropped).1

abbrev second_published : Tables
second_published =
    (insert_version_row 3 (latest_version both_dropped + 1) (codes "z") 8 first_published).1

abbrev raced : Moment
raced = record {
  tables = second_published;
  cache =
      check_from (latest_version first_published) second_published second_published second_published
        (load_config nested);
  in_flight = [];
  told = none;
}

inner_found : find_by_id (codes "inner") nested ≡ some (row (codes "inner") (codes "/a/b") true)
unfolding find_by_id text_eq
inner_found = refl

outer_found :
    find_by_id (codes "outer") (delete (codes "inner") nested).1
    ≡ some (row (codes "outer") (codes "/a") true)
unfolding find_by_id delete text_eq
outer_found = refl

race : Reach (after_load nested) raced
race =
    then_step
      (then_step
        (then_step
          (then_step
            (then_step
              (then_step
                (then_step
                  (then_step at_start
                    (writes {stamp = stamp} (drops (codes "inner") _ inner_found)))
                  (writes {stamp = stamp} (drops (codes "outer") _ outer_found)))
                (reads [] (wrote ∷ []) refl))
              (reads (has_read (latest_version both_dropped) ∷ []) [] refl))
            (publishes (latest_version both_dropped) 2 (codes "y") 7 []
              (has_read (latest_version both_dropped) ∷ []) refl))
          asks)
        (publishes (latest_version both_dropped) 3 (codes "z") 8 [] [] refl))
      (checks (latest_version first_published) refl)

check_and_reload-Reach_example :
    check_and_reload raced.tables raced.cache ≡ load_config raced.tables
check_and_reload-Reach_example = check_and_reload-Reach nested raced race refl
