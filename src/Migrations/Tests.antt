-- ===== src/Migrations/Tests.antt =====
-- A database that holds the applied and the pending versions, and the theorems on it.
use ts_api_gateway.Common.{if◌then◌else◌, ℕ, ◌≡◌, refl, ap, not, List, [], ◌∷◌, ◌++◌, arith}
use ts_api_gateway.Migrations.{
  later_migrations, Query, script, select_version, begin, insert_version, commit, rollback,
  run_migrations,
}
use ts_api_gateway.Migrations.Again.{run_migrations-again}
use ts_api_gateway.Migrations.Applied.{contains, is_nil, Transactional}
use ts_api_gateway.Migrations.Runs.{Ran, run_migrations-Ran}
use ts_api_gateway.Proxy.{Thrown, Outcome, resolved, thrown}

abbrev Versions : Type 0
Versions = List ℕ × List ℕ

-- Every query resolves.
abbrev answer_query : Query → Versions → Outcome (List ℕ) × Versions
answer_query (script sql) (done, open_ones) = (resolved [], (done, open_ones))
answer_query (select_version v) (done, open_ones) =
    (resolved (if contains v done then v ∷ [] else []), (done, open_ones))
answer_query begin (done, open_ones) = (resolved [], (done, []))
answer_query (insert_version v name) (done, open_ones) =
    (resolved [], (done, open_ones ++ (v ∷ [])))
answer_query commit (done, open_ones) = (resolved [], (done ++ open_ones, []))
answer_query rollback (done, open_ones) = (resolved [], (done, []))

found_rows :
    (v : ℕ) (w : Versions) (rows : List ℕ)
    → (answer_query (select_version v) w).0 ≡ resolved rows
    → is_nil rows ≡ not (contains v w.0)
found_rows v w rows e = ground (arith, e)

no_failure :
    (w : Versions) (err : Thrown)
    → (answer_query commit w).0 ≡ thrown err
    → (answer_query commit w).1.0 ≡ w.0
no_failure w err e = cc

abbrev transactional : Transactional answer_query
transactional = record {
  applied = λ w. w.0;
  pending = λ w. w.1;
  script_applied = λ sql w. refl;
  script_pending = λ sql w rows e. refl;
  select_applied = λ v w. refl;
  select_rows = found_rows;
  begin_applied = λ w. refl;
  begin_pending = λ w rows e. refl;
  insert_applied = λ v name w. refl;
  insert_pending = λ v name w rows e. refl;
  commit_resolved = λ w rows e. refl;
  commit_thrown = no_failure;
  rollback_applied = λ w. refl;
}

-- Two of the migrations are there.
abbrev older : Versions
older = (2 ∷ 3 ∷ [], [])

updated : run_migrations answer_query older ≡ (resolved tt, (2 ∷ 3 ∷ 4 ∷ 5 ∷ 6 ∷ [], []))
unfolding run_migrations
updated = refl

run_migrations-Ran_example :
    Ran transactional later_migrations (2 ∷ 3 ∷ []) (run_migrations answer_query older)
run_migrations-Ran_example = run_migrations-Ran transactional older

run_migrations-again_example :
    let w' = (run_migrations answer_query older).1 in (run_migrations answer_query w').1.0 ≡ w'.0
run_migrations-again_example =
    run_migrations-again transactional older
      (ap (λ (r : Outcome (Unit {0}) × Versions). r.0) updated)
