-- ===== src/Migrations/Runs.antt =====
-- What a run of the script leaves in schema_migrations.
use mathlib.Core.List.{append-nil, append_assoc}
use mathlib.Core.Path.{subst}
use ts_api_gateway.Common.{
  ℕ, ◌≡◌, refl, sym, ap, ◌∙◌, ◌⊎◌, inl, inr, true, false, not, List, [], ◌∷◌, ◌++◌, arith,
}
use ts_api_gateway.Migrations.{
  Migration, create_schema_migrations, later_migrations, Query, script, select_version,
  apply_migration, apply_all, run_migrations,
}
use ts_api_gateway.Migrations.Applied.{
  contains, is_nil, Transactional, missing, apply_migration-Applies,
}
use ts_api_gateway.Proxy.{Thrown, Outcome, resolved, thrown, Outcome-cases}

module _ {W : Type 0} {query : Query → W → Outcome (List ℕ) × W} (t : Transactional query) where
  -- From the applied versions `seen`, a loop over migrations that resolves has applied exactly the
  -- missing ones, in order; one that throws has applied some first of them and no other.
  abbrev pub Ran : List Migration → List ℕ → Outcome (Unit {0}) × W → Type 0
  Ran ms seen result =
      ((result.0 ≡ resolved tt) × (t.applied result.1 ≡ seen ++ missing ms seen))
      ⊎ ((err : Thrown) × (finished : List ℕ) × (unfinished : List ℕ) × (result.0 ≡ thrown err)
          × (missing ms seen ≡ finished ++ unfinished)
          × (t.applied result.1 ≡ seen ++ finished))

  stopped :
      (ms : List Migration) (seen : List ℕ) (err : Thrown) (result : Outcome (Unit {0}) × W)
      → result.0 ≡ thrown err
      → t.applied result.1 ≡ seen
      → Ran ms seen result
  stopped ms seen err result e same =
      inr (err, [], missing ms seen, e, refl, same ∙ sym (append-nil seen))

  skipped :
      (m : Migration) (ms : List Migration) (seen : List ℕ) (result : Outcome (Unit {0}) × W)
      → contains m.version seen ≡ true
      → Ran ms seen result
      → Ran (m ∷ ms) seen result
  skipped m ms seen result there (inl (e, all_of_them)) = inl (e, rw there all_of_them)
  skipped m ms seen result there (inr (err, finished, unfinished, e, parts, some_of_them)) =
      inr (err, finished, unfinished, e, rw there parts, some_of_them)

  one_more :
      (m : Migration) (ms : List Migration) (seen : List ℕ) (result : Outcome (Unit {0}) × W)
      → contains m.version seen ≡ false
      → Ran ms (seen ++ (m.version ∷ [])) result
      → Ran (m ∷ ms) seen result
  one_more m ms seen result new (inl (e, all_of_them)) =
      inl (e, rw new (all_of_them ∙ append_assoc seen (m.version ∷ []) _))
  one_more m ms seen result new (inr (err, finished, unfinished, e, parts, some_of_them)) = inr (
    err,
    m.version ∷ finished,
    unfinished,
    e,
    rw new (ap (◌∷◌ m.version) parts),
    some_of_them ∙ append_assoc seen (m.version ∷ []) finished,
  )

  -- The step of the loop behind the question whether the version is there.
  apply_all_there :
      (m : Migration) (ms : List Migration) (w : W) (v : ℕ) (vs : List ℕ)
      → (query (select_version m.version) w).0 ≡ resolved (v ∷ vs)
      → apply_all query (m ∷ ms) w ≡ apply_all query ms (query (select_version m.version) w).1
  unfolding apply_all
  apply_all_there m ms w v vs e = ground (arith, e)

  apply_all_new :
      (m : Migration) (ms : List Migration) (w : W)
      → (query (select_version m.version) w).0 ≡ resolved []
      → apply_all query (m ∷ ms) w ≡ (
          let (answer, w2) = apply_migration query m (query (select_version m.version) w).1 in
          elim answer [ thrown err ↦ (thrown err, w2) | resolved _ ↦ apply_all query ms w2 ])
  unfolding apply_all
  apply_all_new m ms w e = ground (arith, e)

  apply_all_failed :
      (m : Migration) (ms : List Migration) (w : W) (err : Thrown)
      → (query (select_version m.version) w).0 ≡ thrown err
      → apply_all query (m ∷ ms) w ≡ (thrown err, (query (select_version m.version) w).1)
  unfolding apply_all
  apply_all_failed m ms w err e = ground (arith, e)

  -- One round of the loop, from what the rest of it does.
  round-Ran :
      (m : Migration) (ms : List Migration) (w : W) (seen : List ℕ)
      → let o = query (select_version m.version) w in
        let w2 = (apply_migration query m o.1).1 in
        t.applied w ≡ seen
        → Ran ms seen (apply_all query ms o.1)
        → (t.applied w2 ≡ seen ++ (m.version ∷ [])
            → Ran ms (seen ++ (m.version ∷ [])) (apply_all query ms w2))
        → Ran (m ∷ ms) seen (apply_all query (m ∷ ms) w)
  round-Ran m ms w seen same if_there if_new = elim (Outcome-cases o.0) [
    | inr (err, e) ↦
        subst (Ran (m ∷ ms) seen) (sym (apply_all_failed m ms w err e))
          (stopped (m ∷ ms) seen err (thrown err, o.1) refl same1)
    | inl (rows, e) ↦ by_rows rows e
  ]
    where
      o : Outcome (List ℕ) × W
      o = query (select_version m.version) w

      same1 : t.applied o.1 ≡ seen
      same1 = t.select_applied m.version w ∙ same

      known : (rows : List ℕ) → o.0 ≡ resolved rows → is_nil rows ≡ not (contains m.version seen)
      known rows e = t.select_rows m.version w rows e ∙ ap (λ us. not (contains m.version us)) same

      after_new :
          (answer : Outcome (Unit {0}) × W)
          → answer ≡ apply_migration query m o.1
          → contains m.version seen ≡ false
          → Ran (m ∷ ms) seen (elim answer.0 [
            | thrown err ↦ (thrown err, answer.1)
            | resolved _ ↦ apply_all query ms answer.1
          ])
      after_new (answer, w2) is_it new = elim (apply_migration-Applies query t m o.1) [
        | inl (went, added) ↦
            let went' : answer ≡ resolved tt =
              ap (λ (r : Outcome (Unit {0}) × W). r.0) is_it ∙ went in
            let same_w : w2 ≡ (apply_migration query m o.1).1 =
              ap (λ (r : Outcome (Unit {0}) × W). r.1) is_it in
            rw went' (
              one_more m ms seen _ new
                (rw same_w (if_new (added ∙ ap (λ us. us ++ (m.version ∷ [])) same1))))
        | inr (err, failed_it, kept) ↦
            let failed' : answer ≡ thrown err =
              ap (λ (r : Outcome (Unit {0}) × W). r.0) is_it ∙ failed_it in
            let same_w : w2 ≡ (apply_migration query m o.1).1 =
              ap (λ (r : Outcome (Unit {0}) × W). r.1) is_it in
            rw failed' (stopped (m ∷ ms) seen err (thrown err, w2) refl (rw same_w (kept ∙ same1)))
      ]

      by_rows :
          (rows : List ℕ) → o.0 ≡ resolved rows → Ran (m ∷ ms) seen (apply_all query (m ∷ ms) w)
      by_rows (v ∷ vs) e =
          subst (Ran (m ∷ ms) seen) (sym (apply_all_there m ms w v vs e))
            (skipped m ms seen _ (ground (arith, known (v ∷ vs) e)) if_there)
      by_rows [] e =
          subst (Ran (m ∷ ms) seen) (sym (apply_all_new m ms w e))
            (after_new (apply_migration query m o.1) refl (ground (arith, known [] e)))

  apply_all-Ran :
      (ms : List Migration) (w : W) (seen : List ℕ)
      → t.applied w ≡ seen
      → Ran ms seen (apply_all query ms w)
  unfolding apply_all
  apply_all-Ran [] w seen same = inl (refl, same ∙ sym (append-nil seen))
  apply_all-Ran (m ∷ ms) w seen same =
      let o = query (select_version m.version) w in
      let w2 = (apply_migration query m o.1).1 in
      round-Ran m ms w seen same (apply_all-Ran ms o.1 seen (t.select_applied m.version w ∙ same))
        (apply_all-Ran ms w2 (seen ++ (m.version ∷ [])))

  -- A run of the script that resolves has applied exactly the migrations that were missing, in their
  -- order, and none of the others. A run that throws has applied some first ones of the missing, each
  -- of them whole, and none behind them.
  pub run_migrations-Ran : (w : W) → Ran later_migrations (t.applied w) (run_migrations query w)
  unfolding run_migrations
  run_migrations-Ran w =
      let o = query (script create_schema_migrations.sql) w in
      let same = t.script_applied create_schema_migrations.sql w in
      elim (Outcome-cases o.0) [
        | inr (err, e) ↦
            let step : run_migrations query w ≡ (thrown err, o.1) = ground (arith, e) in
            subst (Ran later_migrations (t.applied w)) (sym step)
              (stopped later_migrations (t.applied w) err (thrown err, o.1) refl same)
        | inl (rows, e) ↦
            let step : run_migrations query w ≡ apply_all query later_migrations o.1 =
              ground (arith, e) in
            subst (Ran later_migrations (t.applied w)) (sym step)
              (apply_all-Ran later_migrations o.1 (t.applied w) same)
      ]
