-- ===== src/Connections/Tests.antt =====
-- A pool of counted clients on a database that is up or down, and the theorem on it.
use mathlib.Core.Path.{subst}
use ts_api_gateway.Common.{
  leb, if◌then◌else◌, replicate, ℕ, zero, suc, ◌+◌, ◌-◌, ◌≤◌, ◌<◌, ◌≡◌, refl, sym, Bool, false,
  none, [], ◌∷◌, arith, Text, codes,
}
use ts_api_gateway.Connections.{max_clients, PgPool, check_db_connection}
use ts_api_gateway.Connections.Leaks.{
  checks, queries, answers, AllFail, after_checks, check_db_connection-exhausts,
}
use ts_api_gateway.Proxy.{Thrown, error, Outcome, resolved, thrown}

-- The clients that are out, and whether the database answers.
abbrev World : Type 0
World = ℕ × Bool

abbrev no_reply : Thrown
no_reply = error (codes "Error") (codes "timeout") none

counted_connect : World → Outcome (Unit {0}) × World
counted_connect (out, up) =
    if leb max_clients out then (thrown no_reply, (out, up)) else (resolved tt, (out + 1, up))

counted_query : Text → World → Outcome (Unit {0}) × World
counted_query sql (out, up) = (if up then resolved tt else thrown no_reply, (out, up))

counted : PgPool World
unfolding counted_connect counted_query
counted = record {
  connect = counted_connect;
  query = counted_query;
  release = λ w. (w.0 - 1, w.1);
  taken = λ w. w.0;
  connect_taken = λ w e. ground (arith, e);
  connect_thrown = λ w err e. ground (arith, e);
  connect_full = λ w le. (no_reply, ground (arith, le));
  query_taken = λ sql w. refl;
  release_taken = λ w. refl;
}

one_more_out :
    (out : ℕ)
    → out < max_clients
    → ((counted.connect (out, false)).0 ≡ resolved tt)
      × ((counted.query (codes "SELECT 1") (counted.connect (out, false)).1).0 ≡ thrown no_reply)
      × ((check_db_connection counted (out, false)).1 ≡ (out + 1, false))
unfolding counted counted_connect counted_query check_db_connection
one_more_out out lt = (ground (arith, lt), ground (arith, lt), ground (arith, lt))

-- While the database is down every check that gets a client fails.
down_fails : (n out : ℕ) → n + out ≤ max_clients → AllFail counted n (out, false)
down_fails zero out le = tt
down_fails (suc n) out le =
    let (open_it, fails, next) = one_more_out out (omega (arith, le)) in
    (
      open_it,
      (no_reply, fails),
      subst (AllFail counted n) (sym next) (down_fails n (out + 1) (omega (arith, le))),
    )

check_db_connection-exhausts_example :
    (counted.taken (after_checks counted max_clients (0, false)) ≡ max_clients)
    × (answers counted
          (queries (codes "SELECT 1") ∷ checks ∷ [])
          (after_checks counted max_clients (0, false))
        ≡ replicate 2 false)
check_db_connection-exhausts_example =
    check_db_connection-exhausts counted (0, false) (queries (codes "SELECT 1") ∷ checks ∷ [])
      (unfold counted in refl) (down_fails max_clients 0 (omega arith))
