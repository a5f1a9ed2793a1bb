-- ===== src/Storage/Rows.antt =====
-- What the writes do to the rows: the version they publish, the route they change.
use mathlib.Core.Option
use Prim.Native.Nat.{max}
use ts_api_gateway.Common.{
  if◌then◌else◌, Option-cases, keep, ℕ, ◌+◌, ◌≡◌, refl, ◌∙◌, inl, inr, Bool, true, not, none, some,
  List, [], ◌∷◌, ◌++◌, arith, Text, text_eq, text_eq_iff,
}
use ts_api_gateway.Migrations.Applied.{missing}
use ts_api_gateway.Models.{Route, Policy, ConfigVersion}
use ts_api_gateway.Storage.{Tables, first_row, update_rows}
use ts_api_gateway.Storage.Policies.{
  CreatePolicyDto, find_by_route_id, overwritten, fresh_policy, upsert,
}
use ts_api_gateway.Storage.Routes.{UpdateRouteDto, find_by_id, merged, update, delete}
use ts_api_gateway.Storage.Versions.{
  latest_of, get_latest, latest_version, insert_version_row, bump,
}

abbrev top : List ConfigVersion → ℕ
top vs = elim (latest_of vs) [ none ↦ 0 | some v ↦ v.version ]

top-cons : (v : ConfigVersion) (vs : List ConfigVersion) → top (v ∷ vs) ≡ max v.version (top vs)
unfolding latest_of
top-cons v vs = ground arith

top-append :
    (vs : List ConfigVersion) (v : ConfigVersion) → top (vs ++ (v ∷ [])) ≡ max (top vs) v.version
top-append [] v = top-cons v [] ∙ unfold latest_of in omega arith
top-append (w ∷ vs) v = ground (arith, top-cons w (vs ++ (v ∷ [])), top-cons w vs, top-append vs v)

-- After an INSERT the latest version is the larger of it and the one before.
pub latest_version-insert_version_row :
    (id version : ℕ) (checksum : Text) (now : ℕ) (tables : Tables)
    → latest_version (insert_version_row id version checksum now tables).1
      ≡ max (latest_version tables) version
unfolding insert_version_row latest_version get_latest
latest_version-insert_version_row id version checksum now tables =
    top-append tables.versions (insert_version_row id version checksum now tables).0

-- `bump` publishes the version after the latest one.
pub latest_version-bump :
    (id : ℕ) (checksum : Text) (now : ℕ) (tables : Tables)
    → latest_version (bump id checksum now tables).1 ≡ latest_version tables + 1
unfolding bump
latest_version-bump id checksum now tables =
    ground (arith, top-append tables.versions (bump id checksum now tables).0)

-- Rows under a key: what an update of the rows with one key does to the first row of another.
module _ {A : Type 0} (key : A → Text) where
  abbrev pub is : Text → A → Bool
  is k x = text_eq (key x) k

  pub first_row-update_rows :
      (f : A → A) (i j : Text) (xs : List A)
      → ((x : A) → text_eq (key x) i ≡ true → key (f x) ≡ i)
      → first_row (is j) (update_rows (is i) f xs)
        ≡ (if text_eq i j then Option.map f (first_row (is i) xs) else first_row (is j) xs)
  unfolding first_row update_rows
  first_row-update_rows f i j [] same = ground arith
  first_row-update_rows f i j (x ∷ xs) same = ground (
    arith,
    same x,
    text_eq_iff (key x) i,
    text_eq_iff (key x) j,
    text_eq_iff i j,
    first_row-update_rows f i j xs same,
  )

  pub first_row-keep :
      (i j : Text) (xs : List A)
      → first_row (is j) (keep (λ x. not (is i x)) xs)
        ≡ (if text_eq i j then none else first_row (is j) xs)
  unfolding first_row
  first_row-keep i j [] = ground arith
  first_row-keep i j (x ∷ xs) =
      ground (
        arith,
        text_eq_iff (key x) i,
        text_eq_iff (key x) j,
        text_eq_iff i j,
        first_row-keep i j xs,
      )

  pub first_row-append :
      (j : Text) (xs : List A) (x : A)
      → first_row (is j) (xs ++ (x ∷ []))
        ≡ elim (first_row (is j) xs) [ some y ↦ some y | none ↦ if is j x then some x else none ]
  unfolding first_row
  first_row-append j [] x = refl
  first_row-append j (y ∷ xs) x = ground (arith, first_row-append j xs x)

  pub first_row-key : (i : Text) (xs : List A) (x : A) → first_row (is i) xs ≡ some x → key x ≡ i
  unfolding first_row
  first_row-key i [] x h = cc
  first_row-key i (y ∷ xs) x h = ground (arith, text_eq_iff (key y) i, first_row-key i xs x)

-- After an update, the route with the id is the row that the update returns, and every other route
-- is as before; an unknown id changes nothing.
pub find_by_id-update :
    (id j : Text) (now : ℕ) (dto : UpdateRouteDto) (tables : Tables)
    → find_by_id j (update id now dto tables).1
      ≡ (if text_eq id j then (update id now dto tables).0 else find_by_id j tables)
unfolding update find_by_id
find_by_id-update id j now dto tables = elim (Option-cases (find_by_id id tables)) [
  | inl missing ↦ ground (arith, missing, text_eq_iff id j)
  | inr (existing, e) ↦
      let key = λ (r : Route). r.id in
      ground (
        arith,
        e,
        first_row-key key id tables.routes existing e,
        first_row-update_rows key (λ row. merged now dto existing) id j tables.routes
            (λ x h. first_row-key key id tables.routes existing e),
      )
]

-- After an upsert, the policy of the route is the row that the upsert returns, and every other
-- route keeps its policy.
pub find_by_route_id-upsert :
    (id j : Text) (now : ℕ) (route_id : Text) (dto : CreatePolicyDto) (tables : Tables)
    → find_by_route_id j (upsert id now route_id dto tables).1 ≡ (
        if text_eq route_id j
        then some (upsert id now route_id dto tables).0
        else find_by_route_id j tables)
unfolding upsert find_by_route_id
find_by_route_id-upsert id j now route_id dto tables =
    let key = λ (p : Policy). p.route_id in
    elim (Option-cases (find_by_route_id route_id tables)) [
      | inl missing ↦ ground (
        arith,
        missing,
        text_eq_iff route_id j,
        first_row-append key j tables.policies (overwritten now dto (fresh_policy id route_id now)),
      )
      | inr (existing, e) ↦ ground (
        arith,
        e,
        first_row-update_rows key (overwritten now dto) route_id j tables.policies
            (λ x h. (text_eq_iff (key x) route_id).0 h),
      )
    ]

-- After a deletion that found the route, the route and its policy are gone, and every other one is
-- as before.
pub find-delete :
    (id j : Text) (tables : Tables)
    → (delete id tables).0 ≡ true
    → (find_by_id j (delete id tables).1 ≡ (if text_eq id j then none else find_by_id j tables))
      × (find_by_route_id j (delete id tables).1
          ≡ (if text_eq id j then none else find_by_route_id j tables))
unfolding delete find_by_id find_by_route_id
find-delete id j tables h = elim (Option-cases (find_by_id id tables)) [
  | inl missing ↦ ground (arith, missing, h)
  | inr (route, e) ↦ (
    ground (arith, e, first_row-keep (λ (r : Route). r.id) id j tables.routes),
    ground (arith, e, first_row-keep (λ (p : Policy). p.route_id) id j tables.policies),
  )
]
