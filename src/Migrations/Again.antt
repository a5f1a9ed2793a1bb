-- ===== src/Migrations/Again.antt =====
-- A second run of the script.
use mathlib.Core.List.{append-nil, append_assoc}
use mathlib.Core.Path.{subst}
use ts_api_gateway.Common.{
  Bool-cases, All, ℕ, ◌≡◌, refl, sym, ap, ◌∙◌, inl, inr, true, ◌||◌, List, [], ◌∷◌, ◌++◌, arith,
}
use ts_api_gateway.Migrations.{Migration, later_migrations, Query, run_migrations}
use ts_api_gateway.Migrations.Applied.{contains, Transactional, missing}
use ts_api_gateway.Migrations.Runs.{Ran, run_migrations-Ran}
use ts_api_gateway.Proxy.{Outcome, resolved}

contains-append :
    (v : ℕ) (us vs : List ℕ) → contains v (us ++ vs) ≡ (contains v us || contains v vs)
contains-append v [] vs = refl
contains-append v (u ∷ us) vs = ground (arith, contains-append v us vs)

abbrev Has : List ℕ → List Migration → Type 0
Has seen ms = All (λ m. contains m.version seen ≡ true) ms

-- Behind what it applied, nothing is missing.
Has-missing : (ms : List Migration) (seen : List ℕ) → Has (seen ++ missing ms seen) ms
Has-missing [] seen = tt
Has-missing (m ∷ ms) seen = elim (Bool-cases (contains m.version seen)) [
  | inl there ↦
      let same : missing (m ∷ ms) seen ≡ missing ms seen = rw there refl in
      subst (λ us. Has (seen ++ us) (m ∷ ms)) (sym same)
        (
          ground (arith, there, contains-append m.version seen (missing ms seen)),
          Has-missing ms seen,
        )
  | inr new ↦
      let grown = seen ++ (m.version ∷ []) in
      let same : missing (m ∷ ms) seen ≡ m.version ∷ missing ms grown = rw new refl in
      subst (λ us. Has (seen ++ us) (m ∷ ms)) (sym same)
        (
          ground (arith, contains-append m.version seen (m.version ∷ missing ms grown)),
          subst (λ us. Has us ms) (append_assoc seen (m.version ∷ []) (missing ms grown))
              (Has-missing ms grown),
        )
]

missing-nil : (ms : List Migration) (seen : List ℕ) → Has seen ms → missing ms seen ≡ []
missing-nil [] seen h = refl
missing-nil (m ∷ ms) seen h = rw h.0 (missing-nil ms seen h.1)

module _ {W : Type 0} {query : Query → W → Outcome (List ℕ) × W} (t : Transactional query) where
  -- After a run of the script that resolved, another run applies nothing, whether it resolves or
  -- throws.
  pub run_migrations-again :
      (w : W)
      → (run_migrations query w).0 ≡ resolved tt
      → let w' = (run_migrations query w).1 in t.applied (run_migrations query w').1 ≡ t.applied w'
  run_migrations-again w went =
      let w' = (run_migrations query w).1 in
      let complete : missing later_migrations (t.applied w') ≡ [] =
        all_there (t.applied w) (run_migrations query w) went (run_migrations-Ran t w) in
      elim (run_migrations-Ran t w') [
        | inl (e, all_of_them) ↦ all_of_them ∙ ap (λ us. t.applied w' ++ us) complete ∙ append-nil _
        | inr (err, finished, unfinished, e, parts, some_of_them) ↦
            let none_finished : finished ≡ [] =
              first_part finished unfinished (sym parts ∙ complete) in
            some_of_them ∙ ap (λ us. t.applied w' ++ us) none_finished ∙ append-nil _
      ]
    where
      all_there :
          (seen : List ℕ) (result : Outcome (Unit {0}) × W)
          → result.0 ≡ resolved tt
          → Ran t later_migrations seen result
          → missing later_migrations (t.applied result.1) ≡ []
      all_there seen result ok_it_is (inl (e, all_of_them)) =
          missing-nil later_migrations (t.applied result.1) (
            subst (λ us. Has us later_migrations) (sym all_of_them)
              (Has-missing later_migrations seen))
      all_there seen result ok_it_is (inr (err, finished, unfinished, e, parts, some_of_them)) = cc

      first_part : (xs ys : List ℕ) → xs ++ ys ≡ [] → xs ≡ []
      first_part [] ys e = refl
      first_part (u ∷ xs) ys e = cc
