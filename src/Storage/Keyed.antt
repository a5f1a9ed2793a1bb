-- ===== src/Storage/Keyed.antt =====
-- The invariant that the constraints of the tables give, kept by each write that they let through.
use mathlib.Core.Path.{subst}
use ts_api_gateway.Common.{
  Bool-cases, Option-cases, keep, All, All-append, All-weaken, All-keep, ℕ, ◌≡◌, refl, sym, ◌∙◌,
  inl, inr, Bool, true, not, none, some, List, [], ◌∷◌, ◌++◌, arith, Text, text_eq, text_eq_iff,
}
use ts_api_gateway.Models.{Route, Policy}
use ts_api_gateway.Storage.{Tables, update_rows}
use ts_api_gateway.Storage.Constraints.{present, held_by_other}
use ts_api_gateway.Storage.Keys.{
  Distinct, Distinct-append, Distinct-keep, Distinct-update_rows, Distinct-renamed,
}
use ts_api_gateway.Storage.Plain.{All-update_rows}
use ts_api_gateway.Storage.Policies.{
  CreatePolicyDto, is_for, policy_by_id, find_by_route_id, overwritten, fresh_policy, upsert,
  delete_policy,
}
use ts_api_gateway.Storage.Routes.{
  CreateRouteDto, UpdateRouteDto, has_route_id, find_by_id, find_by_name, created_row, create,
  merged, update, delete,
}
use ts_api_gateway.Storage.Rows.{first_row-append, first_row-key, find_by_id-update, find-delete}

-- Ids and names of routes are unique, a route has one policy at most, and every policy has its
-- route.
pub record IsKeyed (tables : Tables) : Type 0 where
  pub id_apart : Distinct (λ (r : Route). r.id) tables.routes
  pub name_apart : Distinct (λ (r : Route). r.name) tables.routes
  pub one_policy : Distinct (λ (p : Policy). p.route_id) tables.policies
  pub owned : All (λ p. present (find_by_id p.route_id tables) ≡ true) tables.policies

-- What the elements that pass a test inherit.
All-kept :
    {A : Type 0} (P Q : A → Type 0) (p : A → Bool) (xs : List A)
    → ((x : A) → p x ≡ true → P x → Q x)
    → All P xs
    → All Q (keep p xs)
All-kept P Q p [] f h = tt
All-kept P Q p (x ∷ xs) f h = elim (Bool-cases (p x)) [
  | inl kept ↦ rw kept (f x kept h.0, All-kept P Q p xs f h.1)
  | inr gone ↦ rw gone (All-kept P Q p xs f h.1)
]

module _ (tables : Tables) (h : IsKeyed tables) where
  abbrev HasOwner : Tables → Policy → Type 0
  HasOwner t p = present (find_by_id p.route_id t) ≡ true

  pub create-IsKeyed :
      (id : Text) (now : ℕ) (dto : CreateRouteDto)
      → find_by_id id tables ≡ none
      → find_by_name dto.name tables ≡ none
      → IsKeyed (create id now dto tables).1
  unfolding create find_by_id find_by_name
  create-IsKeyed id now dto fresh_id free_name =
      let row = created_row id now dto in
      record {
        id_apart = Distinct-append (λ r. r.id) tables.routes row h.id_apart fresh_id;
        name_apart = Distinct-append (λ r. r.name) tables.routes row h.name_apart free_name;
        one_policy = h.one_policy;
        owned =
            All-weaken (HasOwner tables) (HasOwner (create id now dto tables).1) tables.policies
              (λ p old.
                ground
                  (arith, old, first_row-append (λ (r : Route). r.id) p.route_id tables.routes row))
              h.owned;
      }

  update-HasOwner :
      (id : Text) (now : ℕ) (dto : UpdateRouteDto) (existing : Route) (p : Policy)
      → find_by_id id tables ≡ some existing
      → HasOwner tables p
      → HasOwner (update id now dto tables).1 p
  unfolding update
  update-HasOwner id now dto existing p found old =
      ground (arith, found, find_by_id-update id p.route_id now dto tables)

  pub update-IsKeyed :
      (id : Text) (now : ℕ) (dto : UpdateRouteDto) (existing : Route)
      → find_by_id id tables ≡ some existing
      → held_by_other id (merged now dto existing).name tables ≡ none
      → IsKeyed (update id now dto tables).1
  unfolding update held_by_other
  update-IsKeyed id now dto existing found free =
      let row = merged now dto existing in
      let own_id : row.id ≡ id =
        unfold find_by_id in first_row-key (λ (r : Route). r.id) id tables.routes existing found in
      let done : (update id now dto tables).1
          ≡ record tables { routes = update_rows (has_route_id id) (λ r. row) tables.routes } =
        ground (arith, found) in
      subst IsKeyed (sym done) (record {
        id_apart =
            Distinct-update_rows (λ r. r.id) (has_route_id id) (λ r. row) tables.routes
              (λ r hit. own_id ∙ sym ((text_eq_iff r.id id).0 hit)) h.id_apart;
        name_apart =
            Distinct-renamed (λ r. r.id) (λ r. r.name) id row tables.routes h.id_apart h.name_apart
              free;
        one_policy = h.one_policy;
        owned =
            All-weaken (HasOwner tables)
              (HasOwner
                (record tables { routes = update_rows (has_route_id id) (λ r. row) tables.routes }))
              tables.policies
              (λ p old.
                subst (λ t. HasOwner t p) done (update-HasOwner id now dto existing p found old))
              h.owned;
      })

  delete-HasOwner :
      (id : Text) (p : Policy)
      → (delete id tables).0 ≡ true
      → not (text_eq p.route_id id) ≡ true
      → HasOwner tables p
      → HasOwner (delete id tables).1 p
  delete-HasOwner id p deleted differs old = ground (
    arith,
    (find-delete id p.route_id tables deleted).0,
    text_eq_iff id p.route_id,
    text_eq_iff p.route_id id,
  )

  pub delete-IsKeyed :
      (id : Text) (existing : Route)
      → find_by_id id tables ≡ some existing
      → IsKeyed (delete id tables).1
  unfolding delete
  delete-IsKeyed id existing found =
      let left : Tables = record tables {
        routes = keep (λ r. not (has_route_id id r)) tables.routes;
        policies = keep (λ p. not (text_eq p.route_id id)) tables.policies;
      } in
      let done : (delete id tables).1 ≡ left = ground (arith, found) in
      subst IsKeyed (sym done) (record {
        id_apart =
            Distinct-keep (λ r. r.id) (λ r. not (has_route_id id r)) tables.routes h.id_apart;
        name_apart =
            Distinct-keep (λ r. r.name) (λ r. not (has_route_id id r)) tables.routes h.name_apart;
        one_policy =
            Distinct-keep (λ p. p.route_id) (λ p. not (text_eq p.route_id id)) tables.policies
              h.one_policy;
        owned =
            All-kept (HasOwner tables) (HasOwner left) (λ p. not (text_eq p.route_id id))
              tables.policies
              (λ p kept old.
                subst (λ t. HasOwner t p) done
                  (delete-HasOwner id p (ground (arith, found)) kept old))
              h.owned;
      })

  pub upsert-IsKeyed :
      (id : Text) (now : ℕ) (route_id : Text) (dto : CreatePolicyDto) (route : Route)
      → find_by_id route_id tables ≡ some route
      → IsKeyed (upsert id now route_id dto tables).1
  unfolding upsert find_by_route_id find_by_id
  upsert-IsKeyed id now route_id dto route found =
      elim (Option-cases (find_by_route_id route_id tables)) [
        | inl missing ↦
            let row = overwritten now dto (fresh_policy id route_id now) in
            let done : (upsert id now route_id dto tables).1
                ≡ record tables { policies = tables.policies ++ (row ∷ []) } =
              ground (arith, missing) in
            subst IsKeyed (sym done) (record {
              id_apart = h.id_apart;
              name_apart = h.name_apart;
              one_policy =
                  Distinct-append (λ p. p.route_id) tables.policies row h.one_policy missing;
              owned =
                  All-append (HasOwner tables) tables.policies (row ∷ []) h.owned
                    (ground (arith, found), tt);
            })
        | inr (existing, e) ↦
            let new_rows = update_rows (is_for route_id) (overwritten now dto) tables.policies in
            let done : (upsert id now route_id dto tables).1
                ≡ record tables { policies = new_rows } =
              ground (arith, e) in
            subst IsKeyed (sym done) (record {
              id_apart = h.id_apart;
              name_apart = h.name_apart;
              one_policy =
                  Distinct-update_rows (λ p. p.route_id) (is_for route_id) (overwritten now dto)
                    tables.policies (λ p hit. refl) h.one_policy;
              owned =
                  All-update_rows (HasOwner tables) (is_for route_id) (overwritten now dto)
                    tables.policies (λ p old. old) h.owned;
            })
      ]

  pub delete_policy-IsKeyed :
      (id : Text) (existing : Policy)
      → policy_by_id id tables ≡ some existing
      → IsKeyed (delete_policy id tables).1
  unfolding delete_policy find_by_id
  delete_policy-IsKeyed id existing found =
      let left = record tables { policies = keep (λ p. not (text_eq p.id id)) tables.policies } in
      let done : (delete_policy id tables).1 ≡ left = ground (arith, found) in
      subst IsKeyed (sym done) (record {
        id_apart = h.id_apart;
        name_apart = h.name_apart;
        one_policy =
            Distinct-keep (λ p. p.route_id) (λ p. not (text_eq p.id id)) tables.policies
              h.one_policy;
        owned = All-keep (HasOwner tables) (λ p. not (text_eq p.id id)) tables.policies h.owned;
      })
