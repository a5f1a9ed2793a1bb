-- ===== src/ConfigCache.antt =====
-- src/services/router/config-cache.ts: the snapshot of the configuration in memory, and when it is
-- replaced. The three queries of `loadConfig` are sent at once and not in one transaction, so each
-- reads the tables as they stand when it runs; `load_config` is a load that no write overlaps.
pub mod Reload
pub mod Freshness
pub mod Serving
pub mod Interleaving
mod Tests
use ts_api_gateway.Common.{ltb, if◌then◌else◌, ℕ, List, [], ◌∷◌, put, Dict}
use ts_api_gateway.Gateway.{CachedConfig}
use ts_api_gateway.Models.{Policy}
use ts_api_gateway.Storage.{Tables}
use ts_api_gateway.Storage.Policies.{all_policies}
use ts_api_gateway.Storage.Routes.{find_enabled}
use ts_api_gateway.Storage.Versions.{latest_version}

-- The loop that fills the map of policies: a later policy of a route replaces an earlier one.
unfoldable pub policy_map : List Policy → Dict Policy → Dict Policy
unfolding put
policy_map [] acc = acc
policy_map (policy ∷ policies) acc = policy_map policies (put policy.route_id policy acc)

-- The cache before the first load.
abbrev pub empty_config : CachedConfig
empty_config = record { routes = []; policies = []; version = 0 }

-- The tables as the queries for the routes, the policies and the version find them.
unfoldable pub load_from : Tables → Tables → Tables → CachedConfig
unfolding policy_map
load_from routes_at policies_at version_at = record {
  routes = find_enabled routes_at;
  policies = policy_map (all_policies policies_at) [];
  version = latest_version version_at;
}

unfoldable pub load_config : Tables → CachedConfig
unfolding load_from
load_config tables = load_from tables tables tables

-- What `checkAndReload` does with the answer of its query for the latest version, where its load finds
-- the tables so.
unfoldable pub check_from : ℕ → Tables → Tables → Tables → CachedConfig → CachedConfig
unfolding load_from
check_from latest routes_at policies_at version_at cache =
    if ltb cache.version latest then load_from routes_at policies_at version_at else cache

-- A check whose queries no write comes between.
unfoldable pub check_and_reload : Tables → CachedConfig → CachedConfig
unfolding check_from
check_and_reload tables cache = check_from (latest_version tables) tables tables tables cache
