-- ===== src/Lifecycle.antt =====
-- The life of a gateway process: the hooks onReady and onClose of src/app.ts, the timers that
-- src/services/router/config-cache.ts and src/services/health/upstream-health.service.ts start and
-- stop, closeDb and closeRedis of src/config, and src/server.ts. What the third-party clients answer
-- is an argument of the step that calls them. The first pass of the health checks, which nothing
-- awaits, is left to Health.
pub mod Cycles
mod Tests
use ts_api_gateway.Common.{
  ◌==◌, if◌then◌else◌, keep, ℕ, ◌+◌, Bool, not, Option, none, some, List, [], ◌∷◌,
}
use ts_api_gateway.ConfigCache.{empty_config}
use ts_api_gateway.Gateway.{CachedConfig}
use ts_api_gateway.Proxy.{Outcome, resolved, thrown}

-- A client of ioredis or of node-postgres that the process holds.
pub data Client : Type 0 where
  new_client connected ended : Client

-- `held` is the module variable with the timer, `running` are the timers that fire.
pub record Process : Type 0 where
  pub redis : Client
  pub db : Client
  pub reload_timer : Option ℕ
  pub health_timer : Option ℕ
  pub running : List ℕ
  pub next_timer : ℕ
  pub cache : CachedConfig

-- `setInterval`
abbrev pub set_interval : Process → ℕ × Process
set_interval p =
    (p.next_timer, record p { running = p.next_timer ∷ p.running; next_timer = p.next_timer + 1 })

-- `clearInterval`
abbrev pub clear_interval : ℕ → Process → Process
clear_interval timer p = record p { running = keep (λ t. not (t == timer)) p.running }

unfoldable pub start_config_reload : Process → Process
start_config_reload p = let (timer, p') = set_interval p in record p' { reload_timer = some timer }

unfoldable pub stop_config_reload : Process → Process
stop_config_reload p = elim p.reload_timer [
  | none ↦ p
  | some timer ↦ record (clear_interval timer p) { reload_timer = none }
]

unfoldable pub start_health_checks : Bool → Process → Process
start_health_checks enabled p =
    if not enabled
    then p
    else let (timer, p') = set_interval p in record p' { health_timer = some timer }

unfoldable pub stop_health_checks : Process → Process
stop_health_checks p = elim p.health_timer [
  | none ↦ p
  | some timer ↦ record (clear_interval timer p) { health_timer = none }
]

-- `redis.connect()` with what it answers, and its error swallowed.
abbrev pub connect_redis : Outcome (Unit {0}) → Process → Process
connect_redis (resolved _) p = record p { redis = connected }
connect_redis (thrown err) p = p

-- `loadConfig` with what the queries answer, and its error swallowed.
abbrev pub load_at_start : Outcome CachedConfig → Process → Process
load_at_start (resolved loaded) p = record p { cache = loaded }
load_at_start (thrown err) p = p

-- The hook onReady.
unfoldable pub on_ready : Bool → Outcome (Unit {0}) → Outcome CachedConfig → Process → Process
unfolding start_config_reload start_health_checks
on_ready health_enabled redis_answer load_answer p =
    start_health_checks health_enabled
      (start_config_reload (load_at_start load_answer (connect_redis redis_answer p)))

-- `redis.quit()` and `db.end()` may throw; a new client replaces the old one either way.
abbrev pub close_redis : Outcome (Unit {0}) → Process → Process
close_redis (resolved _) p = record p { redis = new_client }
close_redis (thrown err) p = record p { redis = new_client }

abbrev pub close_db : Outcome (Unit {0}) → Process → Process
close_db (resolved _) p = record p { db = new_client }
close_db (thrown err) p = record p { db = new_client }

-- The hook onClose.
unfoldable pub on_close : Outcome (Unit {0}) → Outcome (Unit {0}) → Process → Process
unfolding stop_config_reload stop_health_checks
on_close quit_answer end_answer p =
    close_db end_answer (close_redis quit_answer (stop_health_checks (stop_config_reload p)))

-- The module variables when the process starts.
abbrev pub first_process : Process
first_process = record {
  redis = new_client;
  db = new_client;
  reload_timer = none;
  health_timer = none;
  running = [];
  next_timer = 0;
  cache = empty_config;
}

-- What the calls of one run of the server answer. `built` and `listening` are `buildApp()` and
-- `app.listen()` apart from the hook that it runs, `closed` is `app.close()` apart from its hook.
pub record Answers : Type 0 where
  pub built : Outcome (Unit {0})
  pub redis_answer : Outcome (Unit {0})
  pub load_answer : Outcome CachedConfig
  pub listening : Outcome (Unit {0})
  pub closed : Outcome (Unit {0})
  pub quit_answer : Outcome (Unit {0})
  pub end_answer : Outcome (Unit {0})

-- `start`: the exit code if it fails, which the top-level catch turns into 1.
unfoldable pub start : Bool → Answers → Process → Option ℕ × Process
unfolding on_ready
start health_enabled a p = elim a.built [
  | thrown err ↦ (some 1, p)
  | resolved _ ↦
      let p' = on_ready health_enabled a.redis_answer a.load_answer p in
      elim a.listening [ thrown err ↦ (some 1, p') | resolved _ ↦ (none, p') ]
]

-- `shutdown`: the exit code is 0 also when `app.close()` throws.
unfoldable pub shutdown : Answers → Process → ℕ × Process
unfolding on_close
shutdown a p =
    let p' = on_close a.quit_answer a.end_answer p in
    elim a.closed [ thrown err ↦ (0, p') | resolved _ ↦ (0, p') ]
