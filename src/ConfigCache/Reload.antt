-- ===== src/ConfigCache/Reload.antt =====
-- What the gateway routes by after a load, and when it loads again.
use ts_api_gateway.Common.{
  if◌then◌else◌, length, All, ℕ, ◌+◌, ◌≤◌, ◌<◌, ◌≡◌, refl, ap, ◌∙◌, ◌⊎◌, true, Option, none, some,
  List, [], ◌∷◌, arith, Text, text_eq, lookup, put, Dict, lookup-put,
}
use ts_api_gateway.ConfigCache.{policy_map, load_config, check_from, check_and_reload}
use ts_api_gateway.Gateway.{CachedConfig}
use ts_api_gateway.Models.{Policy}
use ts_api_gateway.Router.{MatchResult, match_route}
use ts_api_gateway.Router.Cover.{Covers}
use ts_api_gateway.Router.Specificity.{match_route-MostSpecific}
use ts_api_gateway.Storage.{Tables}
use ts_api_gateway.Storage.Order.{find_enabled-LongestFirst, All-of_find_enabled}
use ts_api_gateway.Storage.Policies.{all_policies}
use ts_api_gateway.Storage.Routes.{find_enabled}
use ts_api_gateway.Storage.Rows.{latest_version-bump}
use ts_api_gateway.Storage.Versions.{latest_version, bump}

-- After a load the matched route has the longest prefix of all enabled rows that cover the path.
pub load_config-MostSpecific :
    (tables : Tables) (path : Text) (m : MatchResult)
    → match_route path (load_config tables).routes ≡ some m
    → All
        (λ r. r.enabled ≡ true → Covers r path → length r.path_prefix ≤ length m.route.path_prefix)
        tables.routes
unfolding load_config
load_config-MostSpecific tables path m e =
    All-of_find_enabled (λ s. Covers s path → length s.path_prefix ≤ length m.route.path_prefix)
      tables
      (match_route-MostSpecific path (find_enabled tables) m (find_enabled-LongestFirst tables) e)

-- The policy that a list of policies gives a route: the last one for its id.
abbrev pub last_policy : Text → List Policy → Option Policy → Option Policy
last_policy id [] acc = acc
last_policy id (p ∷ ps) acc = last_policy id ps (if text_eq p.route_id id then some p else acc)

lookup-policy_map :
    (id : Text) (policies : List Policy) (acc : Dict Policy)
    → lookup id (policy_map policies acc) ≡ last_policy id policies (lookup id acc)
unfolding policy_map
lookup-policy_map id [] acc = refl
lookup-policy_map id (p ∷ ps) acc =
    lookup-policy_map id ps (put p.route_id p acc)
    ∙ ap (last_policy id ps) (lookup-put p.route_id id p acc)

-- The loaded map gives a route the last of the policies for its id, in the order of creation.
pub lookup-load_config :
    (tables : Tables) (id : Text)
    → lookup id (load_config tables).policies ≡ last_policy id (all_policies tables) none
unfolding load_config
lookup-load_config tables id =
    lookup-policy_map id (all_policies tables) []
    ∙ ap (last_policy id (all_policies tables)) (unfold lookup in refl)

pub load_config_version : (tables : Tables) → (load_config tables).version ≡ latest_version tables
unfolding load_config
load_config_version tables = refl

pub load_config_routes : (tables : Tables) → (load_config tables).routes ≡ find_enabled tables
unfolding load_config
load_config_routes tables = refl

pub reloads :
    (tables : Tables) (cache : CachedConfig)
    → cache.version < latest_version tables
    → check_and_reload tables cache ≡ load_config tables
unfolding check_and_reload check_from load_config
reloads tables cache lt = ground (arith, lt)

pub rests :
    (tables : Tables) (cache : CachedConfig)
    → latest_version tables ≤ cache.version
    → check_and_reload tables cache ≡ cache
unfolding check_and_reload check_from
rests tables cache le = ground (arith, le)

pub check_from-cases :
    (latest : ℕ) (tables : Tables) (cache : CachedConfig)
    → (check_from latest tables tables tables cache ≡ load_config tables)
      ⊎ (check_from latest tables tables tables cache ≡ cache)
unfolding check_from load_config
check_from-cases latest tables cache = ground arith

-- A poll after a change that published a version replaces a snapshot that was not ahead of the
-- table by the configuration of that moment, and the next poll then leaves it alone.
pub check_and_reload-bump :
    (id : ℕ) (checksum : Text) (now : ℕ) (tables : Tables) (cache : CachedConfig)
    → cache.version ≤ latest_version tables
    → let tables' = (bump id checksum now tables).1 in
      (check_and_reload tables' cache ≡ load_config tables')
      × ((check_and_reload tables' cache).version ≡ latest_version tables + 1)
      × (check_and_reload tables' (check_and_reload tables' cache) ≡ check_and_reload tables' cache)
check_and_reload-bump id checksum now tables cache le =
    let tables' = (bump id checksum now tables).1 in
    let step = latest_version-bump id checksum now tables in
    let loaded = reloads tables' cache (omega (arith, le, step)) in
    (
      loaded,
      ap (λ (c : CachedConfig). c.version) loaded ∙ load_config_version tables' ∙ step,
      rests tables' (check_and_reload tables' cache)
          (omega (arith, ap (λ (c : CachedConfig). c.version) loaded, load_config_version tables')),
    )
