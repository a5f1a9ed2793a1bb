-- ===== src/Admin/Writes/Requests.antt =====
-- How a request ends, and the rule for what all requests keep.
use mathlib.Core.Path.{subst}
use ts_api_gateway.Admin.{
  AdminReply, BumpEnd, goes_through, breaks_off, inserts_unheard, Stamp, bumped, failed,
  query_failed, publish, list_routes, list_policies, AdminRequest, reads_routes, reads_policies,
  reads_route, creates_route, updates_route, deletes_route, creates_policy, deletes_policy, handle,
}
use ts_api_gateway.Admin.Writes.{Write, Ends, is_write, handle_all}
use ts_api_gateway.Admin.Writes.Endpoints.{
  create_route-Ends, update_route-Ends, delete_route-Ends, create_policy-Ends, remove_policy-Ends,
  get_route-same,
}
use ts_api_gateway.Common.{
  ◌<◌, ◌≡◌, refl, sym, ap, ◌⊎◌, inl, inr, true, false, List, [], ◌∷◌, arith,
}
use ts_api_gateway.ErrorHandler.{error_handler}
use ts_api_gateway.Storage.{Tables}

-- Every request reads, is refused, or makes one write and then bumps the version.
pub handle-Ends :
    (stamp : Stamp) (request : AdminRequest) (tables : Tables)
    → ((is_write request ≡ false) × ((handle stamp request tables).1 ≡ tables))
      ⊎ ((is_write request ≡ true) × Ends stamp tables (handle stamp request tables))
unfolding handle list_routes list_policies
handle-Ends stamp reads_routes tables = inl (refl, refl)
handle-Ends stamp reads_policies tables = inl (refl, refl)
handle-Ends stamp (reads_route id) tables = inl (refl, get_route-same stamp tables id)
handle-Ends stamp (creates_route body) tables = inr (refl, create_route-Ends stamp tables body)
handle-Ends stamp (updates_route id body) tables =
    inr (refl, update_route-Ends stamp tables id body)
handle-Ends stamp (deletes_route id) tables = inr (refl, delete_route-Ends stamp tables id)
handle-Ends stamp (creates_policy body) tables = inr (refl, create_policy-Ends stamp tables body)
handle-Ends stamp (deletes_policy id) tables = inr (refl, remove_policy-Ends stamp tables id)

BumpEnd-cases : (b : BumpEnd) → (b ≡ goes_through) ⊎ (b ≡ breaks_off) ⊎ (b ≡ inserts_unheard)
BumpEnd-cases goes_through = inl refl
BumpEnd-cases breaks_off = inr (inl refl)
BumpEnd-cases inserts_unheard = inr (inr refl)

pub publish-cases :
    (stamp : Stamp) (reply : AdminReply) (tables : Tables)
    → ((stamp.bump_end ≡ goes_through)
        × (publish stamp reply tables ≡ (reply, bumped stamp tables)))
      ⊎ ((stamp.bump_end ≡ breaks_off)
          × (publish stamp reply tables ≡ (failed query_failed, tables)))
      ⊎ ((stamp.bump_end ≡ inserts_unheard)
          × (publish stamp reply tables ≡ (failed query_failed, bumped stamp tables)))
unfolding publish
publish-cases stamp reply tables = elim (BumpEnd-cases stamp.bump_end) [
  | inl through ↦ inl (through, rw (through, publish) refl)
  | inr (inl off) ↦ inr (inl (off, rw (off, publish) refl))
  | inr (inr unheard) ↦ inr (inr (unheard, rw (unheard, publish) refl))
]

-- Only a `bump` that goes through leaves the reply of a success.
pub publish-answered :
    (stamp : Stamp) (reply : AdminReply) (tables : Tables)
    → (publish stamp reply tables).0.status_code < 300
    → (publish stamp reply tables).0 ≡ reply
unfolding error_handler
publish-answered stamp reply tables lt = elim (publish-cases stamp reply tables) [
  | inl (through, e) ↦ ap (λ (r : AdminReply × Tables). r.0) e
  | inr (inl (off, e)) ↦
      absurd (omega (arith, lt, ap (λ (r : AdminReply × Tables). r.0.status_code) e))
  | inr (inr (unheard, e)) ↦
      absurd (omega (arith, lt, ap (λ (r : AdminReply × Tables). r.0.status_code) e))
]

-- What publishing keeps, a `bump` keeps however it ends.
publish-keeps :
    (P : Tables → Type 0)
    → ((stamp : Stamp) (tables : Tables) → P tables → P (bumped stamp tables))
    → (stamp : Stamp) (reply : AdminReply) (tables : Tables) → P tables
    → P (publish stamp reply tables).1
publish-keeps P by_bump stamp reply tables h =
    let at : (result : AdminReply × Tables)
        → publish stamp reply tables ≡ result
        → P result.1
        → P (publish stamp reply tables).1 =
      λ result e p. subst (λ (r : AdminReply × Tables). P r.1) (sym e) p in
    elim (publish-cases stamp reply tables) [
      | inl (through, e) ↦ at _ e (by_bump stamp tables h)
      | inr (inl (off, e)) ↦ at _ e h
      | inr (inr (unheard, e)) ↦ at _ e (by_bump stamp tables h)
    ]

-- What every write keeps and the publishing keeps, every request keeps.
pub handle-keeps :
    (P : Tables → Type 0)
    → ((stamp : Stamp) (tables written : Tables)
        → Write stamp tables written
        → P tables
        → P written)
    → ((stamp : Stamp) (tables : Tables) → P tables → P (bumped stamp tables))
    → (stamp : Stamp) (request : AdminRequest) (tables : Tables) → P tables
    → P (handle stamp request tables).1
handle-keeps P by_write by_bump stamp request tables h = elim (handle-Ends stamp request tables) [
  | inl (reading, same) ↦ subst P (sym same) h
  | inr (writing, inl (refused, same)) ↦ subst P (sym same) h
  | inr (writing, inr (written, reply, lt, write, same)) ↦
      subst (λ (r : AdminReply × Tables). P r.1) (sym same)
        (publish-keeps P by_bump stamp reply written (by_write stamp tables written write h))
]

-- An invariant of the requests is one of all sequences of them.
pub handle_all-keeps :
    (P : Tables → Type 0)
    → ((stamp : Stamp) (tables written : Tables)
        → Write stamp tables written
        → P tables
        → P written)
    → ((stamp : Stamp) (tables : Tables) → P tables → P (bumped stamp tables))
    → (requests : List (Stamp × AdminRequest)) (tables : Tables) → P tables
    → P (handle_all requests tables)
handle_all-keeps P by_write by_bump [] tables h = h
handle_all-keeps P by_write by_bump ((stamp, request) ∷ requests) tables h =
    handle_all-keeps P by_write by_bump requests (handle stamp request tables).1
      (handle-keeps P by_write by_bump stamp request tables h)
