-- ===== src/Storage/Plain.antt =====
-- Tables without canaries and cache times, and the writes that keep them so.
use mathlib.Core.Path.{subst}
use ts_api_gateway.Common.{
  Bool-cases, Option-cases, keep, All, All-append, All-keep, ℕ, ◌≡◌, sym, inl, inr, Bool, not, none,
  some, List, [], ◌∷◌, ◌++◌, arith, Text, text_eq,
}
use ts_api_gateway.Models.{Route, Policy}
use ts_api_gateway.Storage.{Tables, first_row, update_rows}
use ts_api_gateway.Storage.Policies.{
  CreatePolicyDto, is_for, policy_by_id, find_by_route_id, overwritten, fresh_policy, upsert,
  delete_policy,
}
use ts_api_gateway.Storage.Routes.{
  CreateRouteDto, UpdateRouteDto, has_route_id, find_by_id, create, merged, update, delete,
}

abbrev pub PlainRoute : Route → Type 0
PlainRoute r =
    (r.canary_upstream_host ≡ none) × (r.canary_upstream_port ≡ none) × (r.canary_weight ≡ none)

abbrev pub PlainPolicy : Policy → Type 0
PlainPolicy p = p.cache_ttl_seconds ≡ none

-- No route has a canary, and no policy has a cache time.
pub record IsPlain (tables : Tables) : Type 0 where
  pub routes : All PlainRoute tables.routes
  pub policies : All PlainPolicy tables.policies

module _ {A : Type 0} (P : A → Type 0) where
  of_first_row : (p : A → Bool) (xs : List A) (x : A) → All P xs → first_row p xs ≡ some x → P x
  unfolding first_row
  of_first_row p [] x h e = cc
  of_first_row p (y ∷ ys) x h e = elim (Bool-cases (p y)) [
    | inl yes_it_is ↦ (let same : y ≡ x = ground (arith, e, yes_it_is) in subst P same h.0)
    | inr not_it ↦ of_first_row p ys x h.1 (rw not_it at e)
  ]

  pub All-update_rows :
      (p : A → Bool) (f : A → A) (xs : List A)
      → ((x : A) → P x → P (f x))
      → All P xs
      → All P (update_rows p f xs)
  unfolding update_rows
  All-update_rows p f [] g h = tt
  All-update_rows p f (x ∷ xs) g h = elim (Bool-cases (p x)) [
    | inl yes_it_is ↦ rw yes_it_is (g x h.0, All-update_rows p f xs g h.1)
    | inr not_it ↦ rw not_it (h.0, All-update_rows p f xs g h.1)
  ]

module _ (tables : Tables) (h : IsPlain tables) where
  pub create-IsPlain :
      (id : Text) (now : ℕ) (dto : CreateRouteDto)
      → dto.canary ≡ none
      → IsPlain (create id now dto tables).1
  unfolding create
  create-IsPlain id now dto e = record {
    routes = All-append PlainRoute tables.routes _ h.routes (ground (arith, e), tt);
    policies = h.policies;
  }

  merged-PlainRoute :
      (id : Text) (now : ℕ) (dto : UpdateRouteDto) (existing : Route)
      → dto.canary ≡ none
      → find_by_id id tables ≡ some existing
      → PlainRoute (merged now dto existing)
  unfolding find_by_id
  merged-PlainRoute id now dto existing e found =
      let (host, port, weight) =
        of_first_row PlainRoute (has_route_id id) tables.routes existing h.routes found in
      (ground (arith, e, host), ground (arith, e, port), ground (arith, e, weight))

  pub update-IsPlain :
      (id : Text) (now : ℕ) (dto : UpdateRouteDto)
      → dto.canary ≡ none
      → IsPlain (update id now dto tables).1
  unfolding update
  update-IsPlain id now dto e = elim (Option-cases (find_by_id id tables)) [
    | inl missing ↦
        let same : (update id now dto tables).1 ≡ tables = ground (arith, missing) in
        subst IsPlain (sym same) h
    | inr (existing, found) ↦
        let new_rows =
          update_rows (has_route_id id) (λ row. merged now dto existing) tables.routes in
        let done : (update id now dto tables).1 ≡ record tables { routes = new_rows } =
          ground (arith, found) in
        subst IsPlain (sym done) (record {
          routes =
              All-update_rows PlainRoute (has_route_id id) (λ row. merged now dto existing)
                tables.routes (λ row q. merged-PlainRoute id now dto existing e found) h.routes;
          policies = h.policies;
        })
  ]

  pub delete-IsPlain : (id : Text) → IsPlain (delete id tables).1
  unfolding delete
  delete-IsPlain id = elim (Option-cases (find_by_id id tables)) [
    | inl missing ↦
        let same : (delete id tables).1 ≡ tables = ground (arith, missing) in
        subst IsPlain (sym same) h
    | inr (existing, found) ↦
        let done : (delete id tables).1 ≡ record tables {
          routes = keep (λ r. not (has_route_id id r)) tables.routes;
          policies = keep (λ p. not (text_eq p.route_id id)) tables.policies;
        } =
          ground (arith, found) in
        subst IsPlain (sym done) (record {
          routes = All-keep PlainRoute (λ r. not (has_route_id id r)) tables.routes h.routes;
          policies =
              All-keep PlainPolicy (λ p. not (text_eq p.route_id id)) tables.policies h.policies;
        })
  ]

  pub upsert-IsPlain :
      (id : Text) (now : ℕ) (route_id : Text) (dto : CreatePolicyDto)
      → dto.cache_ttl_seconds ≡ none
      → IsPlain (upsert id now route_id dto tables).1
  unfolding upsert
  upsert-IsPlain id now route_id dto e = elim (Option-cases (find_by_route_id route_id tables)) [
    | inl missing ↦
        let row = overwritten now dto (fresh_policy id route_id now) in
        let done : (upsert id now route_id dto tables).1
            ≡ record tables { policies = tables.policies ++ (row ∷ []) } =
          ground (arith, missing) in
        subst IsPlain (sym done) (record {
          routes = h.routes;
          policies = All-append PlainPolicy tables.policies (row ∷ []) h.policies (e, tt);
        })
    | inr (existing, found) ↦
        let new_rows = update_rows (is_for route_id) (overwritten now dto) tables.policies in
        let done : (upsert id now route_id dto tables).1 ≡ record tables { policies = new_rows } =
          ground (arith, found) in
        subst IsPlain (sym done) (record {
          routes = h.routes;
          policies =
              All-update_rows PlainPolicy (is_for route_id) (overwritten now dto) tables.policies
                (λ row q. e) h.policies;
        })
  ]

  pub delete_policy-IsPlain : (id : Text) → IsPlain (delete_policy id tables).1
  unfolding delete_policy
  delete_policy-IsPlain id = elim (Option-cases (policy_by_id id tables)) [
    | inl missing ↦
        let same : (delete_policy id tables).1 ≡ tables = ground (arith, missing) in
        subst IsPlain (sym same) h
    | inr (existing, found) ↦
        let done : (delete_policy id tables).1
            ≡ record tables { policies = keep (λ p. not (text_eq p.id id)) tables.policies } =
          ground (arith, found) in
        subst IsPlain (sym done) (record {
          routes = h.routes;
          policies = All-keep PlainPolicy (λ p. not (text_eq p.id id)) tables.policies h.policies;
        })
  ]
