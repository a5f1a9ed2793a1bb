-- ===== src/RateLimiter.antt =====
-- src/services/ratelimit/rate-limiter.service.ts: the sliding window kept in Redis. The Lua script
-- is code of the gateway; the four commands that it calls are Redis's, and parameters here.
pub mod Redis
pub mod Trimming
pub mod Hits
pub mod Window
pub mod Replies
mod Tests
use ts_api_gateway.Common.{ltb, ◌==◌, if◌then◌else◌, ℕ, ◌+◌, ◌-◌, Bool, true, ◌++◌, Text, codes}
use ts_api_gateway.RateLimiter.Redis.{sub_ℕ, Commands}

-- The member that a hit adds: its time and a random number, as text.
abbrev pub hit_member : (ℕ → Text) → ℕ → ℕ → Text
hit_member decimal now random = decimal now ++ (codes "-" ++ decimal random)

abbrev pub window_ms : ℕ
window_ms = 1000

unfoldable pub rate_key : Text → Text → Text
rate_key route_name client_id = codes "rl:" ++ (route_name ++ (codes ":" ++ client_id))

pub record RateLimitResult : Type 0 where
  pub allowed : Bool
  pub remaining : ℕ
  pub reset_at_ms : ℕ
  pub limit : ℕ

-- How the call of Redis ends: with a reply, with an error before the script ran, or with an error
-- after it ran.
pub data Link : Type 0 where
  up : Link
  down : Link
  reply_lost : Link

abbrev pub fail_open : ℕ → ℕ → RateLimitResult
fail_open now limit = record {
  allowed = true;
  remaining = limit;
  reset_at_ms = now + window_ms;
  limit = limit;
}

abbrev pub of_reply : ℕ → ℕ → ℕ × ℕ → RateLimitResult
of_reply now limit (allowed, remaining) = record {
  allowed = allowed == 1;
  remaining = remaining;
  reset_at_ms = now + window_ms;
  limit = limit;
}

module _ (redis : Commands) (decimal : ℕ → Text) where
  open redis use {Db, zremrangebyscore, zcard, zadd, pexpire}

  -- `{1, limit - count - 1}` or `{0, 0}`, beside the database.
  unfoldable pub sliding_window : Text → ℕ → ℕ → ℕ → ℕ → Db → (ℕ × ℕ) × Db
  sliding_window key now window limit random db =
      let trimmed = zremrangebyscore key (sub_ℕ now window) db in
      let count = zcard key trimmed in
      if ltb count limit
      then (
        (1, limit - count - 1),
        pexpire key window (zadd key now (hit_member decimal now random) trimmed),
      )
      else ((0, 0), trimmed)

  -- `now` is the clock's reading, `burst` the limit; `rps` is not used.
  unfoldable pub check_rate_limit : Link → ℕ → ℕ → Text → Text → ℕ → ℕ → Db → RateLimitResult × Db
  unfolding sliding_window
  check_rate_limit link now random route_name client_id rps burst db =
      let (reply, db') =
        sliding_window (rate_key route_name client_id) now window_ms burst random db in
      elim link [
        | up ↦ (of_reply now burst reply, db')
        | down ↦ (fail_open now burst, db)
        | reply_lost ↦ (fail_open now burst, db')
      ]
