-- ===== src/Connections/Leaks.antt =====
-- What the check of the database does to the clients of the pool.
use ts_api_gateway.Common.{
  length, replicate, ℕ, zero, suc, ◌+◌, ◌≤◌, ◌≡◌, refl, Bool, true, false, List, [], ◌∷◌, arith,
  Text, codes,
}
use ts_api_gateway.Connections.{max_clients, PgPool, check_db_connection}
use ts_api_gateway.Proxy.{Thrown, resolved, thrown}

pub data Use : Type 0 where
  checks : Use
  queries : Text → Use

module _ {W : Type 0} (pool : PgPool W) where
  -- The check of the database when its query fails: the client is not given back.
  leak :
      (w : W) (err : Thrown)
      → (pool.connect w).0 ≡ resolved tt
      → (pool.query (codes "SELECT 1") (pool.connect w).1).0 ≡ thrown err
      → ((check_db_connection pool w).0 ≡ false)
        × (pool.taken (check_db_connection pool w).1 ≡ pool.taken w + 1)
  unfolding check_db_connection
  leak w err open_it fails = (
    ground (arith, open_it, fails),
    ground (
      arith,
      open_it,
      fails,
      pool.connect_taken w,
      pool.query_taken (codes "SELECT 1") (pool.connect w).1,
    ),
  )

  full :
      (w : W)
      → max_clients ≤ pool.taken w
      → ((check_db_connection pool w).0 ≡ false)
        × (pool.taken (check_db_connection pool w).1 ≡ pool.taken w)
  unfolding check_db_connection
  full w le =
      let (err, refused) = pool.connect_full w le in
      (ground (arith, refused), ground (arith, refused, pool.connect_thrown w err))

  -- `pool.query(sql)` of node-postgres: it takes a client, and gives it back however the query ends.
  abbrev pub pool_query : Text → W → Bool × W
  pool_query sql w =
      let (client, w1) = pool.connect w in
      elim client [
        | thrown err ↦ (false, w1)
        | resolved _ ↦
            let (rows, w2) = pool.query sql w1 in
            elim rows [
              | thrown err ↦ (false, pool.release w2)
              | resolved _ ↦ (true, pool.release w2)
            ]
      ]

  abbrev pub use_pool : Use → W → Bool × W
  use_pool checks w = check_db_connection pool w
  use_pool (queries sql) w = pool_query sql w

  -- Whether each of a number of uses succeeds, one after the other.
  abbrev pub answers : List Use → W → List Bool
  answers [] w = []
  answers (u ∷ us) w = (use_pool u w).0 ∷ answers us (use_pool u w).1

  use_full :
      (u : Use) (w : W)
      → max_clients ≤ pool.taken w
      → ((use_pool u w).0 ≡ false) × (pool.taken (use_pool u w).1 ≡ pool.taken w)
  use_full checks w le = full w le
  use_full (queries sql) w le =
      let (err, refused) = pool.connect_full w le in
      (ground (arith, refused), ground (arith, refused, pool.connect_thrown w err))

  full_for_good :
      (us : List Use) (w : W)
      → max_clients ≤ pool.taken w
      → answers us w ≡ replicate (length us) false
  full_for_good [] w le = refl
  full_for_good (u ∷ us) w le =
      let (no_client, same) = use_full u w le in
      cc (no_client, full_for_good us (use_pool u w).1 (omega (arith, same, le)))

  -- So many checks get a client and see their query fail.
  abbrev pub AllFail : ℕ → W → Type 0
  AllFail zero w = Unit {0}
  AllFail (suc n) w =
      ((pool.connect w).0 ≡ resolved tt)
      × ((err : Thrown) × ((pool.query (codes "SELECT 1") (pool.connect w).1).0 ≡ thrown err))
      × AllFail n (check_db_connection pool w).1

  abbrev pub after_checks : ℕ → W → W
  after_checks zero w = w
  after_checks (suc n) w = after_checks n (check_db_connection pool w).1

  taken-after_checks :
      (n : ℕ) (w : W) → AllFail n w → pool.taken (after_checks n w) ≡ pool.taken w + n
  taken-after_checks zero w h = omega arith
  taken-after_checks (suc n) w (open_it, (err, fails), later_on) = omega (
    arith,
    (leak w err open_it fails).1,
    taken-after_checks n (check_db_connection pool w).1 later_on,
  )

  -- From a pool of which no client is out, twenty checks whose query fails keep twenty clients.
  -- Every later use of the pool then fails, a check as well as a query, however many there are and
  -- whatever has become of the database. The uses follow one another.
  pub check_db_connection-exhausts :
      (w : W) (us : List Use)
      → pool.taken w ≡ 0
      → AllFail max_clients w
      → (pool.taken (after_checks max_clients w) ≡ max_clients)
        × (answers us (after_checks max_clients w) ≡ replicate (length us) false)
  check_db_connection-exhausts w us idle failing =
      let all_out = taken-after_checks max_clients w failing in
      (
        omega (arith, all_out, idle),
        full_for_good us (after_checks max_clients w) (omega (arith, all_out, idle)),
      )

  -- A check whose calls all succeed answers so and leaves as many clients out as before.
  check_db_connection-returns :
      (w : W)
      → (pool.connect w).0 ≡ resolved tt
      → (pool.query (codes "SELECT 1") (pool.connect w).1).0 ≡ resolved tt
      → ((check_db_connection pool w).0 ≡ true)
        × (pool.taken (check_db_connection pool w).1 ≡ pool.taken w)
  unfolding check_db_connection
  check_db_connection-returns w open_it works = (
    ground (arith, open_it, works),
    ground (
      arith,
      open_it,
      works,
      pool.connect_taken w,
      pool.query_taken (codes "SELECT 1") (pool.connect w).1,
      pool.release_taken (pool.query (codes "SELECT 1") (pool.connect w).1).1,
    ),
  )
