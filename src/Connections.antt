-- ===== src/Connections.antt =====
-- checkDbConnection and checkRedisConnection of src/config. The pool of node-postgres is a
-- parameter over a state W, with what its documentation says of the clients that are checked out:
-- `connect` checks one out or throws, it throws when all are out (the pool is made with a timeout),
-- and a client counts as out until `release` is called.
pub mod Leaks
mod Tests
use ts_api_gateway.Common.{ℕ, ◌+◌, ◌-◌, ◌≤◌, ◌≡◌, Bool, true, false, Text, codes, text_eq}
use ts_api_gateway.Proxy.{Thrown, Outcome, resolved, thrown}

-- `max` of makePool.
abbrev pub max_clients : ℕ
max_clients = 20

pub record PgPool (W : Type 0) : Type 0 where
  pub connect : W → Outcome (Unit {0}) × W
  pub query : Text → W → Outcome (Unit {0}) × W
  pub release : W → W
  pub taken : W → ℕ
  pub connect_taken : (w : W) → (connect w).0 ≡ resolved tt → taken (connect w).1 ≡ taken w + 1
  pub connect_thrown :
      (w : W) (err : Thrown) → (connect w).0 ≡ thrown err → taken (connect w).1 ≡ taken w
  pub connect_full : (w : W) → max_clients ≤ taken w → (err : Thrown) × ((connect w).0 ≡ thrown err)
  pub query_taken : (sql : Text) (w : W) → taken (query sql w).1 ≡ taken w
  pub release_taken : (w : W) → taken (release w) ≡ taken w - 1

module _ {W : Type 0} (pool : PgPool W) where
  unfoldable pub check_db_connection : W → Bool × W
  check_db_connection w =
      let (client, w1) = pool.connect w in
      elim client [
        | thrown err ↦ (false, w1)
        | resolved _ ↦
            let (rows, w2) = pool.query (codes "SELECT 1") w1 in
            elim rows [ thrown err ↦ (false, w2) | resolved _ ↦ (true, pool.release w2) ]
      ]

-- `await redis.ping()`
unfoldable pub check_redis_connection : {W : Type 0} → (W → Outcome Text × W) → W → Bool × W
unfolding text_eq
check_redis_connection ping w =
    let (result, w') = ping w in
    elim result [ thrown err ↦ (false, w') | resolved reply ↦ (text_eq reply (codes "PONG"), w') ]
