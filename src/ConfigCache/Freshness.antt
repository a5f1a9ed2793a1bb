-- ===== src/ConfigCache/Freshness.antt =====
-- The polls of the configuration among the requests of the admin API: when the snapshot is that of
-- the tables.
use native.Mathlib.Decide.{dec_lt}
use ts_api_gateway.Admin.{breaks_off, Stamp, AdminRequest, handle}
use ts_api_gateway.Admin.Publishing.{handle-advances, handle-next, handle-monotone}
use ts_api_gateway.Admin.Writes.{is_write}
use ts_api_gateway.Common.{
  ◌+◌, ◌≤◌, ◌<◌, ◌≡◌, refl, sym, ap, ◌∙◌, ◌≢◌, ◌⊎◌, inl, inr, true, none, List, [], ◌∷◌, arith,
  Text, lookup,
}
use ts_api_gateway.ConfigCache.{load_from, load_config, check_and_reload}
use ts_api_gateway.ConfigCache.Reload.{
  last_policy, lookup-load_config, load_config_version, load_config_routes, reloads, rests,
}
use ts_api_gateway.Gateway.{CachedConfig}
use ts_api_gateway.Storage.{Tables}
use ts_api_gateway.Storage.Policies.{all_policies}
use ts_api_gateway.Storage.Routes.{find_enabled}
use ts_api_gateway.Storage.Versions.{latest_version}

-- What happens to the tables and to the snapshot of one gateway.
pub data Event : Type 0 where
  admin_request : Stamp → AdminRequest → Event
  poll : Event

abbrev pub after_event : Event → Tables × CachedConfig → Tables × CachedConfig
after_event (admin_request stamp request) (tables, cache) = ((handle stamp request tables).1, cache)
after_event poll (tables, cache) = (tables, check_and_reload tables cache)

abbrev pub after_events : List Event → Tables × CachedConfig → Tables × CachedConfig
after_events [] now_is = now_is
after_events (event ∷ events) now_is = after_events events (after_event event now_is)

-- No query of a `bump` throws before the version is inserted.
abbrev pub Published : List Event → Type 0
Published [] = Unit {0}
Published (poll ∷ events) = Published events
Published (admin_request stamp request ∷ events) = (stamp.bump_end ≢ breaks_off) × Published events

-- The snapshot is that of tables which are those of now, or which are behind them.
abbrev Trails : Tables × CachedConfig → Type 0
Trails (tables, cache) =
    (past : Tables) × (cache ≡ load_config past)
    × ((past ≡ tables) ⊎ (latest_version past < latest_version tables))

-- A poll catches up.
poll-Trails :
    (tables : Tables) (cache : CachedConfig)
    → Trails (tables, cache)
    → check_and_reload tables cache ≡ load_config tables
poll-Trails tables cache (past, loaded, inl same) =
    let at_rest = rests tables cache (
      omega (
        arith,
        ap (λ (c : CachedConfig). c.version) loaded,
        load_config_version past,
        ap latest_version same,
      )) in
    at_rest ∙ loaded ∙ ap load_config same
poll-Trails tables cache (past, loaded, inr lt) =
    reloads tables cache
      (omega (arith, ap (λ (c : CachedConfig). c.version) loaded, load_config_version past, lt))

request-Trails :
    (stamp : Stamp) (request : AdminRequest) (tables : Tables) (cache : CachedConfig)
    → stamp.bump_end ≢ breaks_off
    → Trails (tables, cache)
    → Trails ((handle stamp request tables).1, cache)
request-Trails stamp request tables cache published (past, loaded, when) =
    (past, loaded, moved when (handle-advances stamp request tables published))
  where
    moved :
        (past ≡ tables) ⊎ (latest_version past < latest_version tables)
        → ((handle stamp request tables).1 ≡ tables)
          ⊎ (latest_version tables < latest_version (handle stamp request tables).1)
        → (past ≡ (handle stamp request tables).1)
          ⊎ (latest_version past < latest_version (handle stamp request tables).1)
    moved (inl same) (inl still) = inl (same ∙ sym still)
    moved (inl same) (inr lt) = inr (omega (arith, ap latest_version same, lt))
    moved (inr lt) (inl still) = inr (omega (arith, ap latest_version still, lt))
    moved (inr lt) (inr lt') = inr (omega (arith, lt, lt'))

after_events-Trails :
    (events : List Event) (now_is : Tables × CachedConfig)
    → Published events
    → Trails now_is
    → Trails (after_events events now_is)
after_events-Trails [] now_is published h = h
after_events-Trails (poll ∷ events) (tables, cache) published h =
    after_events-Trails events (tables, check_and_reload tables cache) published
      (tables, poll-Trails tables cache h, inl refl)
after_events-Trails (admin_request stamp request ∷ events) (tables, cache) published h =
    after_events-Trails events ((handle stamp request tables).1, cache) published.1
      (request-Trails stamp request tables cache published.0 h)

-- A gateway that has loaded the tables catches up with every change of the admin API: whatever
-- requests and polls there were, as long as no `bump` broke off before its insert, the next poll
-- leaves it with exactly the configuration of the tables of that moment.
pub check_and_reload-after_Published :
    (events : List Event) (tables : Tables)
    → Published events
    → let (tables', cache) = after_events events (tables, load_config tables) in
      check_and_reload tables' cache ≡ load_config tables'
check_and_reload-after_Published events tables published =
    let (tables', cache) = after_events events (tables, load_config tables) in
    poll-Trails tables' cache
      (after_events-Trails events (tables, load_config tables) published (tables, refl, inl refl))

-- A snapshot is never ahead of the tables, also where queries fail.
abbrev IsBehind : Tables × CachedConfig → Type 0
IsBehind (tables, cache) = cache.version ≤ latest_version tables

poll-version :
    (tables : Tables) (cache : CachedConfig)
    → cache.version ≤ latest_version tables
    → (check_and_reload tables cache).version ≤ latest_version tables
poll-version tables cache le = elim (dec_lt cache.version (latest_version tables)) [
  | yes low ↦ omega (
    arith,
    ap (λ (c : CachedConfig). c.version) (reloads tables cache low),
    load_config_version tables,
  )
  | no level ↦
      omega (arith, le, ap (λ (c : CachedConfig). c.version) (rests tables cache (omega arith)))
]

after_events-IsBehind :
    (events : List Event) (now_is : Tables × CachedConfig)
    → IsBehind now_is
    → IsBehind (after_events events now_is)
after_events-IsBehind [] now_is h = h
after_events-IsBehind (poll ∷ events) (tables, cache) h =
    after_events-IsBehind events (tables, check_and_reload tables cache)
      (poll-version tables cache h)
after_events-IsBehind (admin_request stamp request ∷ events) (tables, cache) h =
    after_events-IsBehind events ((handle stamp request tables).1, cache)
      (omega (arith, h, handle-monotone stamp request tables))

-- After any requests and polls, also those whose `bump` failed and whose changes no poll picked up,
-- one write that succeeds brings the gateway level: the next poll replaces the snapshot by one with
-- the enabled rows, the last policy of each route and the version of the tables of that moment. No
-- write comes between the queries of one poll.
pub check_and_reload-after_events :
    (events : List Event) (tables : Tables) (stamp : Stamp) (request : AdminRequest)
    → let (tables', cache) = after_events events (tables, load_config tables) in
      is_write request ≡ true
      → (handle stamp request tables').0.status_code < 300
      → let tables'' = (handle stamp request tables').1 in
        let loaded = check_and_reload tables'' cache in
        (loaded.routes ≡ find_enabled tables'')
        × ((id : Text) → lookup id loaded.policies ≡ last_policy id (all_policies tables'') none)
        × (loaded.version ≡ latest_version tables' + 1)
check_and_reload-after_events events tables stamp request writing success =
    let (tables', cache) = after_events events (tables, load_config tables) in
    let tables'' = (handle stamp request tables').1 in
    let next_one = handle-next stamp request tables' writing success in
    let level =
      after_events-IsBehind events (tables, load_config tables)
        (omega (arith, load_config_version tables)) in
    let loaded = reloads tables'' cache (omega (arith, next_one, level)) in
    (
      ap (λ (c : CachedConfig). c.routes) loaded ∙ load_config_routes tables'',
      λ id. ap (λ (c : CachedConfig). lookup id c.policies) loaded ∙ lookup-load_config tables'' id,
      ap (λ (c : CachedConfig). c.version) loaded ∙ load_config_version tables'' ∙ next_one,
    )

-- A write of the admin API that overlaps a load. If the version is read before the write and the
-- routes and policies after it, the next poll leaves the snapshot of the new tables. If the version
-- is read after the write and the routes and policies before it, the next poll changes nothing: the
-- snapshot stays on the old routes. The `bump` of the request does not break off.
pub check_and_reload-load_from :
    (stamp : Stamp) (request : AdminRequest) (tables : Tables)
    → stamp.bump_end ≢ breaks_off
    → let tables' = (handle stamp request tables).1 in
      let late = load_from tables tables tables' in
      (check_and_reload tables' (load_from tables' tables' tables) ≡ load_config tables')
      × (check_and_reload tables' late ≡ late)
      × ((check_and_reload tables' late).routes ≡ find_enabled tables)
unfolding load_config
check_and_reload-load_from stamp request tables published =
    let tables' = (handle stamp request tables).1 in
    let early = load_from tables' tables' tables in
    let late = load_from tables tables tables' in
    let at_rest = rests tables' late (omega arith) in
    (
      elim (handle-advances stamp request tables published) [
        | inl still ↦
            rests tables' early (omega (arith, ap latest_version still))
            ∙ ap (load_from tables' tables') (sym still)
        | inr lt ↦ reloads tables' early lt
      ],
      at_rest,
      ap (λ (c : CachedConfig). c.routes) at_rest,
    )
