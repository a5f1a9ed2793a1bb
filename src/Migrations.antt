-- ===== src/Migrations.antt =====
-- scripts/migrate.ts: the migrations and the loop that applies them. The client of node-postgres is a
-- parameter over a state W; logging is left out.
pub mod Applied
pub mod Runs
pub mod Again
mod Tests
use ts_api_gateway.Common.{ℕ, List, [], ◌∷◌, Text, codes}
use ts_api_gateway.Proxy.{Outcome, resolved, thrown}

pub data Rule : Type 0 where
  primary_key not_null unique_value : Rule
  default_text : Text → Rule
  references_on_delete_cascade : (table column : Text) → Rule
  percent_or_null : Rule

pub record Column : Type 0 where
  pub name : Text
  pub sql_type : Text
  pub rules : List Rule

-- All of them with IF NOT EXISTS.
pub data Statement : Type 0 where
  create_table : (table : Text) (columns : List Column) → Statement
  create_index : (index table columns : Text) → Statement
  add_columns : (table : Text) (columns : List Column) → Statement

pub record Migration : Type 0 where
  pub version : ℕ
  pub name : Text
  pub sql : List Statement

abbrev column : Text → Text → List Rule → Column
column name sql_type rules = record { name = name; sql_type = sql_type; rules = rules }

abbrev times : List Column
times =
    column (codes "created_at") (codes "TIMESTAMPTZ") (not_null ∷ default_text (codes "NOW()") ∷ [])
    ∷ column (codes "updated_at") (codes "TIMESTAMPTZ")
        (not_null ∷ default_text (codes "NOW()") ∷ [])
    ∷ []

abbrev pub create_schema_migrations : Migration
create_schema_migrations = record {
  version = 1;
  name = codes "create_schema_migrations";
  sql =
      create_table (codes "schema_migrations") (
        column (codes "version") (codes "INTEGER") (primary_key ∷ [])
        ∷ column (codes "name") (codes "VARCHAR(255)") (not_null ∷ [])
        ∷ column (codes "applied_at") (codes "TIMESTAMPTZ")
            (not_null ∷ default_text (codes "NOW()") ∷ [])
        ∷ [])
      ∷ [];
}

abbrev pub create_routes : Migration
create_routes = record {
  version = 2;
  name = codes "create_routes";
  sql =
      create_table (codes "routes") (
        column (codes "id") (codes "UUID")
          (primary_key ∷ default_text (codes "gen_random_uuid()") ∷ [])
        ∷ column (codes "name") (codes "VARCHAR(255)") (unique_value ∷ not_null ∷ [])
        ∷ column (codes "path_prefix") (codes "VARCHAR(255)") (not_null ∷ [])
        ∷ column (codes "upstream_host") (codes "VARCHAR(255)") (not_null ∷ [])
        ∷ column (codes "upstream_port") (codes "INTEGER")
            (not_null ∷ default_text (codes "80") ∷ [])
        ∷ column (codes "strip_path") (codes "BOOLEAN")
            (not_null ∷ default_text (codes "false") ∷ [])
        ∷ column (codes "connect_timeout_ms") (codes "INTEGER")
            (not_null ∷ default_text (codes "200") ∷ [])
        ∷ column (codes "request_timeout_ms") (codes "INTEGER")
            (not_null ∷ default_text (codes "2000") ∷ [])
        ∷ column (codes "retries") (codes "INTEGER") (not_null ∷ default_text (codes "2") ∷ [])
        ∷ column (codes "enabled") (codes "BOOLEAN") (not_null ∷ default_text (codes "true") ∷ [])
        ∷ times)
      ∷ create_index (codes "idx_routes_path_prefix") (codes "routes") (codes "path_prefix")
      ∷ create_index (codes "idx_routes_enabled") (codes "routes") (codes "enabled")
      ∷ [];
}

abbrev pub create_policies : Migration
create_policies = record {
  version = 3;
  name = codes "create_policies";
  sql =
      create_table (codes "policies") (
        column (codes "id") (codes "UUID")
          (primary_key ∷ default_text (codes "gen_random_uuid()") ∷ [])
        ∷ column (codes "route_id") (codes "UUID") (
            not_null
            ∷ references_on_delete_cascade (codes "routes") (codes "id")
            ∷ unique_value
            ∷ [])
        ∷ column (codes "auth_required") (codes "BOOLEAN")
            (not_null ∷ default_text (codes "false") ∷ [])
        ∷ column (codes "rate_limit_rps") (codes "INTEGER") []
        ∷ column (codes "rate_limit_burst") (codes "INTEGER") []
        ∷ times)
      ∷ create_index (codes "idx_policies_route_id") (codes "policies") (codes "route_id")
      ∷ [];
}

abbrev pub create_config_versions : Migration
create_config_versions = record {
  version = 4;
  name = codes "create_config_versions";
  sql =
      create_table (codes "config_versions") (
        column (codes "id") (codes "SERIAL") (primary_key ∷ [])
        ∷ column (codes "version") (codes "INTEGER") (not_null ∷ [])
        ∷ column (codes "checksum") (codes "VARCHAR(64)") (not_null ∷ [])
        ∷ column (codes "published_at") (codes "TIMESTAMPTZ")
            (not_null ∷ default_text (codes "NOW()") ∷ [])
        ∷ [])
      ∷ create_index (codes "idx_config_versions_version") (codes "config_versions")
          (codes "version DESC")
      ∷ [];
}

abbrev pub add_canary_columns : Migration
add_canary_columns = record {
  version = 5;
  name = codes "add_canary_columns_to_routes";
  sql =
      add_columns (codes "routes") (
        column (codes "canary_upstream_host") (codes "VARCHAR(255)") []
        ∷ column (codes "canary_upstream_port") (codes "INTEGER") []
        ∷ column (codes "canary_weight") (codes "INTEGER") (percent_or_null ∷ [])
        ∷ [])
      ∷ [];
}

abbrev pub add_cache_ttl : Migration
add_cache_ttl = record {
  version = 6;
  name = codes "add_cache_ttl_to_policies";
  sql =
      add_columns (codes "policies") (column (codes "cache_ttl_seconds") (codes "INTEGER") [] ∷ [])
      ∷ [];
}

-- `migrations.slice(1)`
abbrev pub later_migrations : List Migration
later_migrations =
    create_routes ∷ create_policies ∷ create_config_versions ∷ add_canary_columns ∷ add_cache_ttl
    ∷ []

pub data Query : Type 0 where
  script : List Statement → Query
  select_version : ℕ → Query
  begin : Query
  insert_version : (version : ℕ) (name : Text) → Query
  commit rollback : Query

module _ {W : Type 0} (query : Query → W → Outcome (List ℕ) × W) where
  -- A query and, when it resolves, what is next.
  abbrev pub then_on : Outcome (List ℕ) × W → (W → Outcome (Unit {0}) × W) → Outcome (Unit {0}) × W
  then_on (thrown err, w) rest = (thrown err, w)
  then_on (resolved rows, w) rest = rest w

  -- `catch (err) { ROLLBACK; throw err; }`; an error of ROLLBACK is thrown instead.
  abbrev pub undone : Outcome (Unit {0}) × W → Outcome (Unit {0}) × W
  undone (resolved _, w) = (resolved tt, w)
  undone (thrown err, w) =
      let (answer, w') = query rollback w in
      elim answer [ thrown err' ↦ (thrown err', w') | resolved rows ↦ (thrown err, w') ]

  unfoldable pub apply_migration : Migration → W → Outcome (Unit {0}) × W
  apply_migration m w = then_on (query begin w) (λ w1. undone (
      then_on (query (script m.sql) w1) (λ w2.
        then_on (query (insert_version m.version m.name) w2)
          (λ w3. then_on (query commit w3) (λ w4. (resolved tt, w4))))))

  -- The loop.
  unfoldable pub apply_all : List Migration → W → Outcome (Unit {0}) × W
  unfolding apply_migration
  apply_all [] w = (resolved tt, w)
  apply_all (m ∷ ms) w =
      let (found, w1) = query (select_version m.version) w in
      elim found [
        | thrown err ↦ (thrown err, w1)
        | resolved (v ∷ vs) ↦ apply_all ms w1
        | resolved [] ↦
            let (answer, w2) = apply_migration m w1 in
            elim answer [ thrown err ↦ (thrown err, w2) | resolved _ ↦ apply_all ms w2 ]
      ]

  unfoldable pub run_migrations : W → Outcome (Unit {0}) × W
  unfolding apply_all
  run_migrations w =
      then_on (query (script create_schema_migrations.sql) w) (λ w'. apply_all later_migrations w')

  -- The exit code of the script.
  abbrev pub exit_code : Outcome (Unit {0}) × W → ℕ
  exit_code (thrown err, w) = 1
  exit_code (resolved _, w) = 0
