-- ===== src/Lifecycle/Tests.antt =====
-- A process whose Redis and database are down from the start to the end.
use ts_api_gateway.Common.{◌≡◌, refl, true, some, [], ◌∷◌, codes}
use ts_api_gateway.ConfigCache.{empty_config}
use ts_api_gateway.Lifecycle.{on_ready, on_close, first_process, Answers}
use ts_api_gateway.Lifecycle.Cycles.{IsIdle, on_ready-IsIdle}
use ts_api_gateway.Proxy.{Thrown, error, resolved, thrown}

abbrev refused : Thrown
refused = error (codes "Error") (codes "connect ECONNREFUSED") (some (codes "ECONNREFUSED"))

abbrev all_down : Answers
all_down = record {
  built = resolved tt;
  redis_answer = thrown refused;
  load_answer = thrown refused;
  listening = resolved tt;
  closed = resolved tt;
  quit_answer = thrown refused;
  end_answer = thrown refused;
}

on_ready-IsIdle_example :
    let up = on_ready true all_down.redis_answer all_down.load_answer first_process in
    (up.reload_timer ≡ some 0)
    × (up.health_timer ≡ some 1)
    × (up.running ≡ 1 ∷ 0 ∷ [])
    × (up.cache ≡ empty_config)
    × IsIdle (on_close all_down.quit_answer all_down.end_answer up)
on_ready-IsIdle_example = on_ready-IsIdle true all_down first_process (record {
  no_reload = refl;
  no_health = refl;
  none_running = refl;
  new_redis = refl;
  new_db = refl;
})
