-- ===== src/Storage/Versions.antt =====
-- src/repositories/config-version.repository.ts.
use ts_api_gateway.Common.{
  leb, if◌then◌else◌, ℕ, ◌+◌, Option, none, some, List, [], ◌∷◌, ◌++◌, Text,
}
use ts_api_gateway.Models.{ConfigVersion}
use ts_api_gateway.Storage.{Tables}

-- `ORDER BY version DESC LIMIT 1`
abbrev newer : ConfigVersion → Option ConfigVersion → ConfigVersion
newer v none = v
newer v (some w) = if leb w.version v.version then v else w

unfoldable pub latest_of : List ConfigVersion → Option ConfigVersion
latest_of [] = none
latest_of (v ∷ vs) = some (newer v (latest_of vs))

unfoldable pub get_latest : Tables → Option ConfigVersion
unfolding latest_of
get_latest tables = latest_of tables.versions

-- `latest?.version ?? 0`
unfoldable pub latest_version : Tables → ℕ
unfolding get_latest
latest_version tables = elim (get_latest tables) [ none ↦ 0 | some v ↦ v.version ]

-- The INSERT of `bump`, of a version that was computed before.
unfoldable pub insert_version_row : ℕ → ℕ → Text → ℕ → Tables → ConfigVersion × Tables
insert_version_row id version checksum now tables =
    let row : ConfigVersion = record {
      id = id;
      version = version;
      checksum = checksum;
      published_at = now;
    } in
    (row, record tables { versions = tables.versions ++ (row ∷ []) })

unfoldable pub bump : ℕ → Text → ℕ → Tables → ConfigVersion × Tables
unfolding latest_version insert_version_row
bump id checksum now tables = insert_version_row id (latest_version tables + 1) checksum now tables
