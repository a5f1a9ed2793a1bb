-- ===== src/Storage/Policies.antt =====
-- src/repositories/policy.repository.ts.
use mathlib.Core.Option
use ts_api_gateway.Common.{
  leb, or_default, keep, ℕ, Bool, true, false, not, Option, none, some, List, [], ◌∷◌, ◌++◌, Text,
  text_eq,
}
use ts_api_gateway.Models.{Policy}
use ts_api_gateway.Storage.{Tables, insert_row, order_by, first_row, update_rows}

-- `CreatePolicyDto` of src/models/policy.model.ts.
pub record CreatePolicyDto : Type 0 where
  pub route : Text
  pub auth_required : Option Bool
  pub rate_limit : Option (ℕ × ℕ)
  pub cache_ttl_seconds : Option ℕ

abbrev pub is_for : Text → Policy → Bool
is_for route_id policy = text_eq policy.route_id route_id

unfoldable pub all_policies : Tables → List Policy
unfolding order_by insert_row
all_policies tables = order_by (λ a b. leb a.created_at b.created_at) tables.policies

unfoldable pub policy_by_id : Text → Tables → Option Policy
unfolding first_row text_eq
policy_by_id id tables = first_row (λ p. text_eq p.id id) tables.policies

unfoldable pub find_by_route_id : Text → Tables → Option Policy
unfolding first_row
find_by_route_id route_id tables = first_row (is_for route_id) tables.policies

-- What `upsert` writes over an existing row.
abbrev pub overwritten : ℕ → CreatePolicyDto → Policy → Policy
overwritten now dto existing = record existing {
  auth_required = or_default dto.auth_required false;
  rate_limit_rps = Option.map (λ l. l.0) dto.rate_limit;
  rate_limit_burst = Option.map (λ l. l.1) dto.rate_limit;
  cache_ttl_seconds = dto.cache_ttl_seconds;
  updated_at = now;
}

abbrev pub fresh_policy : Text → Text → ℕ → Policy
fresh_policy id route_id now = record {
  id = id;
  route_id = route_id;
  auth_required = false;
  rate_limit_rps = none;
  rate_limit_burst = none;
  cache_ttl_seconds = none;
  created_at = now;
  updated_at = now;
}

unfoldable pub upsert : Text → ℕ → Text → CreatePolicyDto → Tables → Policy × Tables
unfolding update_rows find_by_route_id
upsert id now route_id dto tables = elim (find_by_route_id route_id tables) [
  | some existing ↦ (
    overwritten now dto existing,
    record tables {
      policies = update_rows (is_for route_id) (overwritten now dto) tables.policies;
    },
  )
  | none ↦
      let row = overwritten now dto (fresh_policy id route_id now) in
      (row, record tables { policies = tables.policies ++ (row ∷ []) })
]

unfoldable pub delete_policy : Text → Tables → Bool × Tables
unfolding text_eq policy_by_id
delete_policy id tables = elim (policy_by_id id tables) [
  | none ↦ (false, tables)
  | some policy ↦
      (true, record tables { policies = keep (λ p. not (text_eq p.id id)) tables.policies })
]
