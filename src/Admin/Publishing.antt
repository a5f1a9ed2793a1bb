-- ===== src/Admin/Publishing.antt =====
-- Which requests publish a version, and which leave the tables alone.
use mathlib.Core.Path.{subst}
use ts_api_gateway.Admin.{
  AdminReply, goes_through, breaks_off, inserts_unheard, Stamp, bumped, publish, AdminRequest,
  handle, key_matches, Validation, admin,
}
use ts_api_gateway.Admin.Writes.{Write, inserts, changes, drops, upserts, removes, is_write}
use ts_api_gateway.Admin.Writes.Requests.{handle-Ends, publish-cases}
use ts_api_gateway.Common.{
  Bool-cases, Option-cases, ℕ, ◌+◌, ◌≤◌, ◌<◌, ◌≡◌, refl, sym, ap, ◌∙◌, ◌≢◌, ◌⊎◌, inl, inr, true,
  false, Option, none, some, [], ◌∷◌, arith, Text, codes, text_eq, text_eq_iff, lookup, Dict,
}
use ts_api_gateway.ErrorHandler.{error_handler}
use ts_api_gateway.Proxy.{HeaderValue, one, many}
use ts_api_gateway.Storage.{Tables}
use ts_api_gateway.Storage.Policies.{CreatePolicyDto, find_by_route_id, upsert, delete_policy}
use ts_api_gateway.Storage.Routes.{UpdateRouteDto, find_by_id, create, update, delete}
use ts_api_gateway.Storage.Rows.{latest_version-bump}
use ts_api_gateway.Storage.Versions.{latest_version}

-- A refusal changes nothing; a success publishes the version after the latest one; and where the
-- queries of `bump` fail, the write stays behind an answer of 500, with that version or without one.
abbrev pub Settles : Stamp → Tables → AdminReply × Tables → Type 0
Settles stamp earlier result =
    ((400 ≤ result.0.status_code) × (result.1 ≡ earlier))
    ⊎ ((result.0.status_code < 300)
        × (stamp.bump_end ≡ goes_through)
        × ((written : Tables) × Write stamp earlier written × (result.1 ≡ bumped stamp written))
        × (latest_version result.1 ≡ latest_version earlier + 1))
    ⊎ ((result.0.status_code ≡ 500)
        × ((written : Tables) × Write stamp earlier written
            × (((stamp.bump_end ≡ breaks_off)
                  × (result.1 ≡ written)
                  × (latest_version result.1 ≡ latest_version earlier))
                ⊎ ((stamp.bump_end ≡ inserts_unheard)
                    × (result.1 ≡ bumped stamp written)
                    × (latest_version result.1 ≡ latest_version earlier + 1)))))

-- Writes to the other tables do not touch the versions.
pub same_version :
    (earlier after_it : Tables)
    → after_it.versions ≡ earlier.versions
    → latest_version after_it ≡ latest_version earlier
unfolding latest_version
same_version earlier after_it e = rw e refl

module _ (id : Text) (now : ℕ) (tables : Tables) where
  update-versions : (dto : UpdateRouteDto) → (update id now dto tables).1.versions ≡ tables.versions
  unfolding update
  update-versions dto = elim (Option-cases (find_by_id id tables)) [
    | inl e ↦ ground (arith, e)
    | inr (existing, e) ↦ ground (arith, e)
  ]

  upsert-versions :
      (route_id : Text) (dto : CreatePolicyDto)
      → (upsert id now route_id dto tables).1.versions ≡ tables.versions
  unfolding upsert
  upsert-versions route_id dto = elim (Option-cases (find_by_route_id route_id tables)) [
    | inl e ↦ ground (arith, e)
    | inr (existing, e) ↦ ground (arith, e)
  ]

-- No write touches the versions.
pub Write-versions :
    {stamp : Stamp} {tables written : Tables}
    → Write stamp tables written
    → written.versions ≡ tables.versions
unfolding create delete delete_policy
Write-versions (inserts body dto good fresh_id free) = refl
Write-versions {stamp} {tables} (changes id body dto existing good found free) =
    update-versions id stamp.now tables dto
Write-versions (drops id existing found) = ground (arith, found)
Write-versions {stamp} {tables} (upserts route_id body dto route good found) =
    upsert-versions stamp.row_id stamp.now tables route_id dto
Write-versions (removes id existing found) = ground (arith, found)

bumped-version :
    (stamp : Stamp) (earlier written : Tables)
    → written.versions ≡ earlier.versions
    → latest_version (bumped stamp written) ≡ latest_version earlier + 1
bumped-version stamp earlier written e =
    latest_version-bump stamp.version_id stamp.checksum stamp.now written
    ∙ ap (λ n. n + 1) (same_version earlier written e)

publish-Settles :
    (stamp : Stamp) (earlier written : Tables) (reply : AdminReply)
    → reply.status_code < 300
    → Write stamp earlier written
    → Settles stamp earlier (publish stamp reply written)
unfolding error_handler
publish-Settles stamp earlier written reply lt write =
    let same = Write-versions write in
    let next_one = bumped-version stamp earlier written same in
    elim (publish-cases stamp reply written) [
      | inl (through, e) ↦
          subst (Settles stamp earlier) (sym e)
            (inr (inl (lt, through, (written, write, refl), next_one)))
      | inr (inl (off, e)) ↦
          subst (Settles stamp earlier) (sym e)
            (inr (inr (refl, (written, write, inl (off, refl, same_version earlier written same)))))
      | inr (inr (unheard, e)) ↦
          subst (Settles stamp earlier) (sym e)
            (inr (inr (refl, (written, write, inr (unheard, refl, next_one)))))
    ]

-- A request that reads leaves the tables alone. One that writes is refused with a status from 400
-- on and changes nothing; or it writes and publishes the version after the latest one; or, where a
-- query of `bump` throws, it writes and answers 500, and that version is inserted or no version is.
-- No other request comes between its queries, and its other queries do not fail.
pub handle-Settles :
    (stamp : Stamp) (request : AdminRequest) (tables : Tables)
    → ((is_write request ≡ false) × ((handle stamp request tables).1 ≡ tables))
      ⊎ ((is_write request ≡ true) × Settles stamp tables (handle stamp request tables))
handle-Settles stamp request tables = elim (handle-Ends stamp request tables) [
  | inl (reading, same) ↦ inl (reading, same)
  | inr (writing, inl refused) ↦ inr (writing, inl refused)
  | inr (writing, inr (written, reply, lt, write, same)) ↦ inr (
    writing,
    subst (Settles stamp tables) (sym same) (publish-Settles stamp tables written reply lt write),
  )
]

-- A request whose `bump` does not break off changes nothing, or takes the version forward.
pub handle-advances :
    (stamp : Stamp) (request : AdminRequest) (tables : Tables)
    → stamp.bump_end ≢ breaks_off
    → ((handle stamp request tables).1 ≡ tables)
      ⊎ (latest_version tables < latest_version (handle stamp request tables).1)
handle-advances stamp request tables published = elim (handle-Settles stamp request tables) [
  | inl (reading, same) ↦ inl same
  | inr (writing, inl (refused, same)) ↦ inl same
  | inr (writing, inr (inl (lt, through, made, next_one))) ↦ inr (omega (arith, next_one))
  | inr (writing, inr (inr (crashed, (written, write, inl (off, same, still))))) ↦
      absurd (published off)
  | inr (writing, inr (inr (crashed, (written, write, inr (unheard, same, next_one))))) ↦
      inr (omega (arith, next_one))
]

-- A write that succeeds publishes the next version.
pub handle-next :
    (stamp : Stamp) (request : AdminRequest) (tables : Tables)
    → is_write request ≡ true
    → (handle stamp request tables).0.status_code < 300
    → latest_version (handle stamp request tables).1 ≡ latest_version tables + 1
handle-next stamp request tables writing lt = elim (handle-Settles stamp request tables) [
  | inl (reading, same) ↦ absurd (cc (reading, writing))
  | inr (w, inl (refused, same)) ↦ absurd (omega arith)
  | inr (w, inr (inl (success, through, made, next_one))) ↦ next_one
  | inr (w, inr (inr (crashed, rest))) ↦ absurd (omega arith)
]

-- No request takes the version back.
pub handle-monotone :
    (stamp : Stamp) (request : AdminRequest) (tables : Tables)
    → latest_version tables ≤ latest_version (handle stamp request tables).1
handle-monotone stamp request tables = elim (handle-Settles stamp request tables) [
  | inl (reading, same) ↦ omega (arith, ap latest_version same)
  | inr (w, inl (refused, same)) ↦ omega (arith, ap latest_version same)
  | inr (w, inr (inl (success, through, made, next_one))) ↦ omega (arith, next_one)
  | inr (w, inr (inr (crashed, (written, write, inl (off, same, still))))) ↦ omega (arith, still)
  | inr (w, inr (inr (crashed, (written, write, inr (unheard, same, next_one))))) ↦
      omega (arith, next_one)
]

no_match :
    (admin_key : Text) (v : Option HeaderValue)
    → v ≢ some (one admin_key)
    → key_matches admin_key v ≡ false
no_match admin_key none h = refl
no_match admin_key (some (many vs)) h = refl
no_match admin_key (some (one [])) h = refl
no_match admin_key (some (one (c ∷ key))) h = elim (Bool-cases (text_eq (c ∷ key) admin_key)) [
  | inl same ↦ absurd (h (rw ((text_eq_iff (c ∷ key) admin_key).0 same) refl))
  | inr differs ↦ differs
]

-- The status of a request without a valid key: the validator speaks first.
abbrev pub shut_out_status : Option Text → ℕ
shut_out_status none = 401
shut_out_status (some complaint) = 400

-- Without the key of the environment an admin request that Fastify's validator accepts gets 401, one
-- that it refuses gets 400, and both leave the tables alone.
pub admin-unauthorized :
    (validate : Validation) (admin_key : Text) (headers : Dict HeaderValue) (stamp : Stamp)
    (request : AdminRequest) (tables : Tables)
    → lookup (codes "x-api-key") headers ≢ some (one admin_key)
    → let result = admin validate admin_key headers stamp request tables in
      (result.0.status_code ≡ shut_out_status (validate request)) × (result.1 ≡ tables)
unfolding admin error_handler
admin-unauthorized validate admin_key headers stamp request tables h =
    let refused = no_match admin_key (lookup (codes "x-api-key") headers) h in
    elim (Option-cases (validate request)) [
      | inl accepted ↦ (ground (arith, refused, accepted), ground (arith, refused, accepted))
      | inr (complaint, bad) ↦ (ground (arith, bad), ground (arith, bad))
    ]
