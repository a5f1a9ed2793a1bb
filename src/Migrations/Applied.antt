-- ===== src/Migrations/Applied.antt =====
-- Which migrations a run applies.
use mathlib.Core.Path.{ap₂, subst}
use ts_api_gateway.Common.{
  ◌==◌, if◌then◌else◌, ℕ, ◌≡◌, refl, sym, ap, ◌∙◌, ◌⊎◌, inl, inr, Bool, true, false, not, ◌||◌,
  List, [], ◌∷◌, ◌++◌, arith, Text,
}
use ts_api_gateway.Migrations.{
  Statement, Migration, Query, script, select_version, begin, insert_version, commit, rollback,
  then_on, undone, apply_migration,
}
use ts_api_gateway.Proxy.{Thrown, Outcome, resolved, thrown, Outcome-cases}

abbrev pub contains : ℕ → List ℕ → Bool
contains v [] = false
contains v (u ∷ us) = u == v || contains v us

abbrev pub is_nil {ℓ} : {A : Type ℓ} → List A → Bool
is_nil [] = true
is_nil (a ∷ more) = false

-- What PostgreSQL documents of transactions, for the rows of schema_migrations: `applied` are the
-- committed versions, `pending` those that the open transaction has inserted. A COMMIT that fails
-- has not committed.
pub record Transactional {W : Type 0} (query : Query → W → Outcome (List ℕ) × W) : Type 0 where
  pub applied : W → List ℕ
  pub pending : W → List ℕ
  pub script_applied : (sql : List Statement) (w : W) → applied (query (script sql) w).1 ≡ applied w
  pub script_pending :
      (sql : List Statement) (w : W) (rows : List ℕ)
      → (query (script sql) w).0 ≡ resolved rows
      → pending (query (script sql) w).1 ≡ pending w
  pub select_applied : (v : ℕ) (w : W) → applied (query (select_version v) w).1 ≡ applied w
  pub select_rows :
      (v : ℕ) (w : W) (rows : List ℕ)
      → (query (select_version v) w).0 ≡ resolved rows
      → is_nil rows ≡ not (contains v (applied w))
  pub begin_applied : (w : W) → applied (query begin w).1 ≡ applied w
  pub begin_pending :
      (w : W) (rows : List ℕ) → (query begin w).0 ≡ resolved rows → pending (query begin w).1 ≡ []
  pub insert_applied :
      (v : ℕ) (name : Text) (w : W) → applied (query (insert_version v name) w).1 ≡ applied w
  pub insert_pending :
      (v : ℕ) (name : Text) (w : W) (rows : List ℕ)
      → (query (insert_version v name) w).0 ≡ resolved rows
      → pending (query (insert_version v name) w).1 ≡ pending w ++ (v ∷ [])
  pub commit_resolved :
      (w : W) (rows : List ℕ)
      → (query commit w).0 ≡ resolved rows
      → applied (query commit w).1 ≡ applied w ++ pending w
  pub commit_thrown :
      (w : W) (err : Thrown)
      → (query commit w).0 ≡ thrown err
      → applied (query commit w).1 ≡ applied w
  pub rollback_applied : (w : W) → applied (query rollback w).1 ≡ applied w

-- The versions that a run has still to apply, in order.
abbrev pub missing : List Migration → List ℕ → List ℕ
missing [] seen = []
missing (m ∷ ms) seen =
    if contains m.version seen
    then missing ms seen
    else m.version ∷ missing ms (seen ++ (m.version ∷ []))

module _ {W : Type 0} (query : Query → W → Outcome (List ℕ) × W) (t : Transactional query) where
  -- All or nothing of one migration.
  abbrev pub Applies : Migration → W → Outcome (Unit {0}) × W → Type 0
  Applies m w result =
      ((result.0 ≡ resolved tt) × (t.applied result.1 ≡ t.applied w ++ (m.version ∷ [])))
      ⊎ ((err : Thrown) × (result.0 ≡ thrown err) × (t.applied result.1 ≡ t.applied w))

  undone-thrown :
      (m : Migration) (err : Thrown) (w0 w : W)
      → t.applied w ≡ t.applied w0
      → Applies m w0 (undone query (thrown err, w))
  undone-thrown m err w0 w same = elim (Outcome-cases (query rollback w).0) [
    | inl (rows, e) ↦ inr (err, ground (arith, e), ground (arith, e, same, t.rollback_applied w))
    | inr (err', e) ↦ inr (err', ground (arith, e), ground (arith, e, same, t.rollback_applied w))
  ]

  then_on-resolved :
      (o : Outcome (List ℕ) × W) (rest : W → Outcome (Unit {0}) × W) (rows : List ℕ)
      → o.0 ≡ resolved rows
      → then_on query o rest ≡ rest o.1
  then_on-resolved (resolved _, w) rest rows e = refl
  then_on-resolved (thrown err, w) rest rows e = cc

  then_on-thrown :
      (o : Outcome (List ℕ) × W) (rest : W → Outcome (Unit {0}) × W) (err : Thrown)
      → o.0 ≡ thrown err
      → then_on query o rest ≡ (thrown err, o.1)
  then_on-thrown (resolved _, w) rest err e = cc
  then_on-thrown (thrown err', w) rest err e = ground (arith, e)

  -- The queries between BEGIN and ROLLBACK.
  abbrev within_try : Migration → W → Outcome (Unit {0}) × W
  within_try m w1 = then_on query (query (script m.sql) w1) (λ w2.
      then_on query (query (insert_version m.version m.name) w2)
        (λ w3. then_on query (query commit w3) (λ w4. (resolved tt, w4))))

  -- They commit the version behind what was pending, or throw with nothing committed.
  within_try-cases :
      (m : Migration) (w1 : W)
      → ((w4 : W) × (within_try m w1 ≡ (resolved tt, w4))
          × (t.applied w4 ≡ t.applied w1 ++ (t.pending w1 ++ (m.version ∷ []))))
        ⊎ ((err : Thrown) × (wx : W) × (within_try m w1 ≡ (thrown err, wx))
            × (t.applied wx ≡ t.applied w1))
  within_try-cases m w1 =
      let o2 = query (script m.sql) w1 in
      let o3 = query (insert_version m.version m.name) o2.1 in
      let o4 = query commit o3.1 in
      let same2 = t.script_applied m.sql w1 in
      let same3 = t.insert_applied m.version m.name o2.1 in
      elim (Outcome-cases o2.0) [
        | inr (err, e2) ↦ inr (err, o2.1, then_on-thrown o2 _ err e2, same2)
        | inl (rows2, e2) ↦ elim (Outcome-cases o3.0) [
          | inr (err, e3) ↦ inr (
            err,
            o3.1,
            then_on-resolved o2 _ rows2 e2 ∙ then_on-thrown o3 _ err e3,
            same3 ∙ same2,
          )
          | inl (rows3, e3) ↦ elim (Outcome-cases o4.0) [
            | inr (err, e4) ↦ inr (
              err,
              o4.1,
              then_on-resolved o2 _ rows2 e2
                  ∙ then_on-resolved o3 _ rows3 e3
                  ∙ then_on-thrown o4 _ err e4,
              t.commit_thrown o3.1 err e4 ∙ same3 ∙ same2,
            )
            | inl (rows4, e4) ↦ inl (
              o4.1,
              then_on-resolved o2 _ rows2 e2
                  ∙ then_on-resolved o3 _ rows3 e3
                  ∙ then_on-resolved o4 _ rows4 e4,
              t.commit_resolved o3.1 rows4 e4
                  ∙ ap₂ ◌++◌ (same3 ∙ same2) (
                      t.insert_pending m.version m.name o2.1 rows3 e3
                      ∙ ap (λ us. us ++ (m.version ∷ [])) (t.script_pending m.sql w1 rows2 e2)),
            )
          ]
        ]
      ]

  pub apply_migration-Applies : (m : Migration) (w : W) → Applies m w (apply_migration query m w)
  unfolding apply_migration
  apply_migration-Applies m w =
      let o1 = query begin w in
      let same1 = t.begin_applied w in
      elim (Outcome-cases o1.0) [
        | inr (err, e1) ↦
            let step : apply_migration query m w ≡ (thrown err, o1.1) =
              then_on-thrown o1 (λ w1. undone query (within_try m w1)) err e1 in
            subst (Applies m w) (sym step) (inr (err, refl, same1))
        | inl (rows1, e1) ↦
            let step : apply_migration query m w ≡ undone query (within_try m o1.1) =
              then_on-resolved o1 (λ w1. undone query (within_try m w1)) rows1 e1 in
            elim (within_try-cases m o1.1) [
              | inl (w4, done_it, added) ↦
                  subst (Applies m w) (sym (step ∙ ap (undone query) done_it)) (
                    inl (
                      refl,
                      added
                          ∙ ap₂ ◌++◌ same1
                              (ap (λ us. us ++ (m.version ∷ [])) (t.begin_pending w rows1 e1)),
                    ))
              | inr (err, wx, failed_it, same) ↦
                  subst (Applies m w) (sym (step ∙ ap (undone query) failed_it))
                    (undone-thrown m err w wx (same ∙ same1))
            ]
      ]
