-- ===== src/Admin/Keyed.antt =====
-- Unique names and owned policies under the admin API, also where two creations race.
use mathlib.Core.Path.{subst}
use ts_api_gateway.Admin.{
  route_data, admin_error, AdminReply, answer_with, goes_through, breaks_off, inserts_unheard,
  Stamp, bumped, publish, write_create, AdminRequest,
}
use ts_api_gateway.Admin.Writes.{Write, inserts, changes, drops, upserts, removes, handle_all}
use ts_api_gateway.Admin.Writes.Requests.{publish-cases, handle_all-keeps}
use ts_api_gateway.Common.{
  Option-cases, ◌+◌, ◌≡◌, refl, sym, ap, ◌∙◌, ◌⊎◌, inl, inr, true, false, ◌||◌, none, some, List,
  arith, codes, text_eq_iff,
}
use ts_api_gateway.ErrorHandler.{error_handler}
use ts_api_gateway.Models.{Route}
use ts_api_gateway.Storage.{Tables}
use ts_api_gateway.Storage.Constraints.{present, insert_route}
use ts_api_gateway.Storage.Keyed.{
  IsKeyed, create-IsKeyed, update-IsKeyed, delete-IsKeyed, upsert-IsKeyed, delete_policy-IsKeyed,
}
use ts_api_gateway.Storage.Routes.{CreateRouteDto, find_by_id, find_by_name, created_row, create}
use ts_api_gateway.Storage.Rows.{latest_version-bump, first_row-append}
use ts_api_gateway.Storage.Versions.{latest_version, bump}

Write-IsKeyed :
    (stamp : Stamp) (tables written : Tables)
    → Write stamp tables written
    → IsKeyed tables
    → IsKeyed written
Write-IsKeyed stamp tables _ (inserts body dto good fresh_id free) h =
    create-IsKeyed tables h stamp.row_id stamp.now dto fresh_id free
Write-IsKeyed stamp tables _ (changes id body dto existing good found free) h =
    update-IsKeyed tables h id stamp.now dto existing found free
Write-IsKeyed stamp tables _ (drops id existing found) h = delete-IsKeyed tables h id existing found
Write-IsKeyed stamp tables _ (upserts route_id body dto route good found) h =
    upsert-IsKeyed tables h stamp.row_id stamp.now route_id dto route found
Write-IsKeyed stamp tables _ (removes id existing found) h =
    delete_policy-IsKeyed tables h id existing found

bumped-IsKeyed : (stamp : Stamp) (tables : Tables) → IsKeyed tables → IsKeyed (bumped stamp tables)
unfolding bump find_by_id
bumped-IsKeyed stamp tables h = record {
  id_apart = h.id_apart;
  name_apart = h.name_apart;
  one_policy = h.one_policy;
  owned = h.owned;
}

-- From tables in which the ids and the names of the routes are unique, no route has two policies
-- and every policy has its route, every sequence of admin requests leads to such tables.
pub handle_all-IsKeyed :
    (requests : List (Stamp × AdminRequest)) (tables : Tables)
    → IsKeyed tables
    → IsKeyed (handle_all requests tables)
handle_all-IsKeyed = handle_all-keeps IsKeyed Write-IsKeyed bumped-IsKeyed

module _ (stamp : Stamp) (dto : CreateRouteDto) (tables : Tables) where
  write_create-step :
      find_by_id stamp.row_id tables ≡ none
      → find_by_name dto.name tables ≡ none
      → let (route, tables') = create stamp.row_id stamp.now dto tables in
        write_create stamp dto tables ≡ publish stamp (answer_with 201 (route_data route)) tables'
  unfolding write_create insert_route
  write_create-step fresh_id free = ground arith

  create_row :
      ((create stamp.row_id stamp.now dto tables).0 ≡ created_row stamp.row_id stamp.now dto)
      × (latest_version (create stamp.row_id stamp.now dto tables).1 ≡ latest_version tables)
  unfolding create latest_version
  create_row = (refl, refl)

  find_by_name-bumped : find_by_name dto.name (bumped stamp tables) ≡ find_by_name dto.name tables
  unfolding bump find_by_name
  find_by_name-bumped = refl

  find_by_name-create :
      find_by_name dto.name tables ≡ none
      → find_by_name dto.name (create stamp.row_id stamp.now dto tables).1
        ≡ some (created_row stamp.row_id stamp.now dto)
  unfolding create find_by_name
  find_by_name-create free = ground (
    arith,
    text_eq_iff dto.name dto.name,
    first_row-append (λ (r : Route). r.name) dto.name tables.routes
        (created_row stamp.row_id stamp.now dto),
  )

-- What a creation may come to on the tables that its writes meet.
abbrev pub Races : Stamp → CreateRouteDto → Tables → AdminReply × Tables → Type 0
Races stamp dto tables result =
    let taken =
      present (find_by_id stamp.row_id tables) || present (find_by_name dto.name tables) in
    let row = created_row stamp.row_id stamp.now dto in
    let version = latest_version result.1 in
    ((taken ≡ true)
      × (result ≡ (answer_with 409 (admin_error (codes "Resource already exists")), tables)))
    ⊎ ((taken ≡ false)
        × (find_by_name dto.name result.1 ≡ some row)
        × (((stamp.bump_end ≡ goes_through)
              × (result.0 ≡ answer_with 201 (route_data row))
              × (version ≡ latest_version tables + 1))
            ⊎ ((stamp.bump_end ≡ breaks_off)
                × (result.0.status_code ≡ 500)
                × (version ≡ latest_version tables))
            ⊎ ((stamp.bump_end ≡ inserts_unheard)
                × (result.0.status_code ≡ 500)
                × (version ≡ latest_version tables + 1))))

module _ (stamp : Stamp) (dto : CreateRouteDto) (tables : Tables) where
  published-Races :
      find_by_id stamp.row_id tables ≡ none
      → find_by_name dto.name tables ≡ none
      → let (route, tables') = create stamp.row_id stamp.now dto tables in
        Races stamp dto tables (publish stamp (answer_with 201 (route_data route)) tables')
  unfolding error_handler
  published-Races fresh_id free =
      let (route, tables') = create stamp.row_id stamp.now dto tables in
      let made = create_row stamp dto tables in
      let absent : (present (find_by_id stamp.row_id tables)
            || present (find_by_name dto.name tables))
          ≡ false =
        ground (arith, fresh_id, free) in
      let found = find_by_name-create stamp dto tables free in
      let found_later = find_by_name-bumped stamp dto tables' ∙ found in
      let next_one =
        latest_version-bump stamp.version_id stamp.checksum stamp.now tables'
        ∙ ap (λ n. n + 1) made.1 in
      elim (publish-cases stamp (answer_with 201 (route_data route)) tables') [
        | inl (through, e) ↦ subst (Races stamp dto tables) (sym e) (
            inr (
              absent,
              found_later,
              inl (through, ap (λ r. answer_with 201 (route_data r)) made.0, next_one),
            ))
        | inr (inl (off, e)) ↦
            subst (Races stamp dto tables) (sym e)
              (inr (absent, found, inr (inl (off, refl, made.1))))
        | inr (inr (unheard, e)) ↦
            subst (Races stamp dto tables) (sym e)
              (inr (absent, found_later, inr (inr (unheard, refl, next_one))))
      ]

  -- The writes of a creation that passed its checks, on the tables that they meet, which other
  -- requests may have changed since. If a route has the name or the new row's id by then, the reply
  -- is 409 with the text of the error handler, and nothing changes. If none has, the row is written
  -- and found by its name; the reply is 201 with the row and the version after the latest is
  -- published, or, where a query of `bump` throws, the reply is 500.
  pub write_create-Races : Races stamp dto tables (write_create stamp dto tables)
  unfolding write_create insert_route
  write_create-Races = elim (Option-cases (find_by_id stamp.row_id tables)) [
    | inr (row, taken) ↦ inl (ground (arith, taken), ground (arith, taken))
    | inl fresh_id ↦ elim (Option-cases (find_by_name dto.name tables)) [
      | inr (row, taken) ↦ inl (ground (arith, fresh_id, taken), ground (arith, fresh_id, taken))
      | inl free ↦
          subst (Races stamp dto tables) (sym (write_create-step stamp dto tables fresh_id free))
            (published-Races fresh_id free)
    ]
  ]
