-- ===== src/Lifecycle/Cycles.antt =====
-- What a start and a shutdown leave behind, whatever the clients answer.
use mathlib.Core.Path.{subst}
use ts_api_gateway.Common.{
  if◌then◌else◌, ℕ, ◌+◌, ◌≡◌, refl, sym, ap, ◌∙◌, ◌⊎◌, inl, inr, Bool, true, false, none, some,
  List, [], ◌∷◌, arith,
}
use ts_api_gateway.Gateway.{CachedConfig}
use ts_api_gateway.Lifecycle.{new_client, Process, on_ready, on_close, Answers, start, shutdown}
use ts_api_gateway.Proxy.{Outcome, resolved, thrown, Outcome-cases}

-- No timer fires, none is held, and the clients are new.
pub record IsIdle (p : Process) : Type 0 where
  pub no_reload : p.reload_timer ≡ none
  pub no_health : p.health_timer ≡ none
  pub none_running : p.running ≡ []
  pub new_redis : p.redis ≡ new_client
  pub new_db : p.db ≡ new_client

-- What the hook onReady makes of an idle process.
up_and_running :
    (health_enabled : Bool) (redis_answer : Outcome (Unit {0})) (load_answer : Outcome CachedConfig)
    (p : Process)
    → IsIdle p
    → let up = on_ready health_enabled redis_answer load_answer p in
      (up.reload_timer ≡ some p.next_timer)
      × (up.health_timer ≡ (if health_enabled then some (p.next_timer + 1) else none))
      × (up.running
          ≡ (if health_enabled then (p.next_timer + 1) ∷ p.next_timer ∷ [] else p.next_timer ∷ []))
      × (up.cache ≡ elim load_answer [ resolved loaded ↦ loaded | thrown err ↦ p.cache ])
unfolding on_ready
up_and_running true (resolved _) (resolved loaded) p h = (refl, refl, ground arith, refl)
up_and_running true (resolved _) (thrown err) p h = (refl, refl, ground arith, refl)
up_and_running true (thrown err) (resolved loaded) p h = (refl, refl, ground arith, refl)
up_and_running true (thrown err) (thrown err') p h = (refl, refl, ground arith, refl)
up_and_running false (resolved _) (resolved loaded) p h = (refl, ground arith, ground arith, refl)
up_and_running false (resolved _) (thrown err) p h = (refl, ground arith, ground arith, refl)
up_and_running false (thrown err) (resolved loaded) p h = (refl, ground arith, ground arith, refl)
up_and_running false (thrown err) (thrown err') p h = (refl, ground arith, ground arith, refl)

-- What the hook onClose makes of a process with these timers.
on_close_of :
    (health_enabled : Bool) (quit_answer end_answer : Outcome (Unit {0})) (n : ℕ) (p : Process)
    → p.reload_timer ≡ some n
    → p.health_timer ≡ (if health_enabled then some (n + 1) else none)
    → p.running ≡ (if health_enabled then (n + 1) ∷ n ∷ [] else n ∷ [])
    → IsIdle (on_close quit_answer end_answer p)
unfolding on_close
on_close_of true (resolved _) (resolved _) n p r h l = ground arith
on_close_of true (resolved _) (thrown err) n p r h l = ground arith
on_close_of true (thrown err) (resolved _) n p r h l = ground arith
on_close_of true (thrown err) (thrown err') n p r h l = ground arith
on_close_of false (resolved _) (resolved _) n p r h l = ground arith
on_close_of false (resolved _) (thrown err) n p r h l = ground arith
on_close_of false (thrown err) (resolved _) n p r h l = ground arith
on_close_of false (thrown err) (thrown err') n p r h l = ground arith

-- A gateway comes up whatever Redis and the database answer: its reload timer fires, its health
-- timer exactly when the checks are enabled, and its configuration is the loaded one, or the old one
-- if the load failed. After the shutdown, whatever the clients answer to it, no timer fires or is
-- held, and both clients are new.
pub on_ready-IsIdle :
    (health_enabled : Bool) (a : Answers) (p : Process)
    → IsIdle p
    → let up = on_ready health_enabled a.redis_answer a.load_answer p in
      (up.reload_timer ≡ some p.next_timer)
      × (up.health_timer ≡ (if health_enabled then some (p.next_timer + 1) else none))
      × (up.running
          ≡ (if health_enabled then (p.next_timer + 1) ∷ p.next_timer ∷ [] else p.next_timer ∷ []))
      × (up.cache ≡ elim a.load_answer [ resolved loaded ↦ loaded | thrown err ↦ p.cache ])
      × IsIdle (on_close a.quit_answer a.end_answer up)
on_ready-IsIdle health_enabled a p h =
    let up = on_ready health_enabled a.redis_answer a.load_answer p in
    let (reload_is, health_is, running_are, cache_is) =
      up_and_running health_enabled a.redis_answer a.load_answer p h in
    (
      reload_is,
      health_is,
      running_are,
      cache_is,
      on_close_of health_enabled a.quit_answer a.end_answer p.next_timer up reload_is health_is
          running_are,
    )

-- Servers that are started and shut down one after the other in one process.
abbrev pub after_servers : Bool → List Answers → Process → Process
after_servers health_enabled [] p = p
after_servers health_enabled (a ∷ as_before) p =
    after_servers health_enabled as_before
      (on_close a.quit_answer a.end_answer (on_ready health_enabled a.redis_answer a.load_answer p))

-- However many servers a process starts and shuts down, and whatever the clients answer, it is idle
-- between them: no timer is left over.
pub after_servers-IsIdle :
    (health_enabled : Bool) (runs : List Answers) (p : Process)
    → IsIdle p
    → IsIdle (after_servers health_enabled runs p)
after_servers-IsIdle health_enabled [] p h = h
after_servers-IsIdle health_enabled (a ∷ runs) p h =
    after_servers-IsIdle health_enabled runs
      (on_close a.quit_answer a.end_answer (on_ready health_enabled a.redis_answer a.load_answer p))
      (on_ready-IsIdle health_enabled a p h).4

-- A start either fails with the exit code 1, since the app was not built or did not listen, or
-- leaves a gateway whose shutdown exits with 0 and leaves the process idle.
start-IsIdle :
    (health_enabled : Bool) (a : Answers) (p : Process)
    → IsIdle p
    → let (code, up) = start health_enabled a p in
      (code ≡ some 1) ⊎ ((code ≡ none) × ((shutdown a up).0 ≡ 0) × IsIdle (shutdown a up).1)
unfolding start shutdown
start-IsIdle health_enabled a p h = elim (Outcome-cases a.built) [
  | inr (err, failed_it) ↦ inl (ground (arith, failed_it))
  | inl (app, built_it) ↦ elim (Outcome-cases a.listening) [
    | inr (err, failed_it) ↦ inl (ground (arith, built_it, failed_it))
    | inl (port_is, listens) ↦
        let up = on_ready health_enabled a.redis_answer a.load_answer p in
        let step : (start health_enabled a p).1 ≡ up = ground (arith, built_it, listens) in
        let down : (shutdown a up).1 ≡ on_close a.quit_answer a.end_answer up =
          elim (Outcome-cases a.closed) [
            | inl (r, e) ↦ ground (arith, e)
            | inr (r, e) ↦ ground (arith, e)
          ] in
        let code : (shutdown a (start health_enabled a p).1).0 ≡ 0 = elim (Outcome-cases a.closed) [
          | inl (r, e) ↦ ground (arith, e)
          | inr (r, e) ↦ ground (arith, e)
        ] in
        inr (
          ground (arith, built_it, listens),
          code,
          subst IsIdle (sym (ap (λ q. (shutdown a q).1) step ∙ down))
              (on_ready-IsIdle health_enabled a p h).4,
        )
  ]
]
