-- ===== src/ConfigCache/Interleaving.antt =====
-- The queries of concurrent admin requests, interleaved with each other and with the checks of a
-- gateway. A request that writes makes three steps: it writes its rows, it reads the latest version,
-- and it inserts the next one. Requests of several gateways may be anywhere between. A check makes
-- two: it reads the latest version, and then it decides and may load. The three queries of one load
-- are one step: they find the tables of the same moment. No query fails here.
use mathlib.Core.Path.{subst}
use native.Mathlib.Decide.{dec_lt}
use ts_api_gateway.Admin.{Stamp}
use ts_api_gateway.Admin.Publishing.{same_version, Write-versions}
use ts_api_gateway.Admin.Writes.{Write}
use ts_api_gateway.Common.{
  ℕ, ◌+◌, ◌≤◌, ◌≡◌, refl, sym, ◌∙◌, ◌⊎◌, inl, inr, Option, none, some, List, [], ◌∷◌, ◌++◌, arith,
  Text,
}
use ts_api_gateway.ConfigCache.{load_config, check_from, check_and_reload}
use ts_api_gateway.ConfigCache.Reload.{load_config_version, reloads, rests, check_from-cases}
use ts_api_gateway.Gateway.{CachedConfig}
use ts_api_gateway.Storage.{Tables}
use ts_api_gateway.Storage.Policies.{all_policies}
use ts_api_gateway.Storage.Routes.{find_enabled}
use ts_api_gateway.Storage.Rows.{latest_version-insert_version_row}
use ts_api_gateway.Storage.Versions.{latest_version, insert_version_row}

-- Where a request stands: it has written, or it has read the latest version as well.
pub data Phase : Type 0 where
  wrote : Phase
  has_read : ℕ → Phase

pub record Moment : Type 0 where
  pub tables : Tables
  pub cache : CachedConfig
  pub in_flight : List Phase
  -- What a check under way was told.
  pub told : Option ℕ

pub data Step (s : Moment) : Moment → Type 0 where
  writes :
      {stamp : Stamp} {written : Tables}
      → Write stamp s.tables written
      → Step s (record s { tables = written; in_flight = wrote ∷ s.in_flight })
  reads :
      (front rest : List Phase)
      → s.in_flight ≡ front ++ (wrote ∷ rest)
      → Step s (record s { in_flight = front ++ (has_read (latest_version s.tables) ∷ rest) })
  publishes :
      (n id : ℕ) (checksum : Text) (now : ℕ) (front rest : List Phase)
      → s.in_flight ≡ front ++ (has_read n ∷ rest)
      → Step s (record s {
        tables = (insert_version_row id (n + 1) checksum now s.tables).1;
        in_flight = front ++ rest;
      })
  asks : Step s (record s { told = some (latest_version s.tables) })
  checks :
      (n : ℕ)
      → s.told ≡ some n
      → Step s (record s { cache = check_from n s.tables s.tables s.tables s.cache; told = none })

pub data Reach (s : Moment) : Moment → Type 0 where
  at_start : Reach s s
  then_step : {t u : Moment} → Reach s t → Step t u → Reach s u

-- A request in this phase still has to publish a version above the one of the snapshot.
abbrev Will : ℕ → Phase → Type 0
Will v wrote = Unit {0}
Will v (has_read n) = v ≤ n

abbrev Some : ℕ → List Phase → Type 0
Some v [] = ⊥
Some v (p ∷ ps) = Will v p ⊎ Some v ps

abbrev SameRows : Tables → CachedConfig → Type 0
SameRows tables cache =
    (cache.routes ≡ (load_config tables).routes) × (cache.policies ≡ (load_config tables).policies)

-- A snapshot that no poll would replace has the rows of the tables, or a request will publish.
record IsCovered (s : Moment) : Type 0 where
  bounded : s.cache.version ≤ latest_version s.tables
  covered :
      latest_version s.tables ≤ s.cache.version
      → SameRows s.tables s.cache ⊎ Some s.cache.version s.in_flight

Some-replaced :
    (v : ℕ) (p q : Phase) (front rest : List Phase)
    → (Will v p → Will v q)
    → Some v (front ++ (p ∷ rest))
    → Some v (front ++ (q ∷ rest))
Some-replaced v p q [] rest f (inl h) = inl (f h)
Some-replaced v p q [] rest f (inr h) = inr h
Some-replaced v p q (r ∷ front) rest f (inl h) = inl h
Some-replaced v p q (r ∷ front) rest f (inr h) = inr (Some-replaced v p q front rest f h)

Some-removed :
    (v : ℕ) (p : Phase) (front rest : List Phase)
    → ¬ Will v p
    → Some v (front ++ (p ∷ rest))
    → Some v (front ++ rest)
Some-removed v p [] rest f (inl h) = absurd (f h)
Some-removed v p [] rest f (inr h) = h
Some-removed v p (r ∷ front) rest f (inl h) = inl h
Some-removed v p (r ∷ front) rest f (inr h) = inr (Some-removed v p front rest f h)

-- Only the rows count.
SameRows-insert_version_row :
    (id version : ℕ) (checksum : Text) (now : ℕ) (tables : Tables) (cache : CachedConfig)
    → SameRows tables cache
    → SameRows (insert_version_row id version checksum now tables).1 cache
unfolding load_config insert_version_row find_enabled all_policies
SameRows-insert_version_row id version checksum now tables cache h = h

Step-IsCovered : {s t : Moment} → Step s t → IsCovered s → IsCovered t
Step-IsCovered {s} (writes {stamp} {written} write) h =
    let same = same_version s.tables written (Write-versions write) in
    record { bounded = omega (arith, same, h.bounded); covered = λ le. inr (inl tt) }
Step-IsCovered {s} (reads front rest e) h = record {
  bounded = h.bounded;
  covered = λ le. elim (h.covered le) [
    | inl rows ↦ inl rows
    | inr some_will ↦ inr (
        Some-replaced s.cache.version wrote (has_read (latest_version s.tables)) front rest
          (λ _. h.bounded) (subst (Some s.cache.version) e some_will))
  ];
}
Step-IsCovered {s} (publishes n id checksum now front rest e) h =
    let grown = latest_version-insert_version_row id (n + 1) checksum now s.tables in
    record {
      bounded = omega (arith, grown, h.bounded);
      covered = λ le. elim (h.covered (omega (arith, grown, le))) [
        | inl rows ↦ inl (SameRows-insert_version_row id (n + 1) checksum now s.tables s.cache rows)
        | inr some_will ↦ inr (
            Some-removed s.cache.version (has_read n) front rest
              (λ small. omega (arith, grown, le, small)) (subst (Some s.cache.version) e some_will))
      ];
    }
Step-IsCovered asks h = record { bounded = h.bounded; covered = h.covered }
Step-IsCovered {s} (checks n e) h = elim (check_from-cases n s.tables s.cache) [
  | inl loaded ↦
      subst (λ c. IsCovered (record s { cache = c; told = none })) (sym loaded)
        (record {
          bounded = omega (arith, load_config_version s.tables);
          covered = λ le. inl (refl, refl);
        })
  | inr kept ↦
      subst (λ c. IsCovered (record s { cache = c; told = none })) (sym kept)
        (record { bounded = h.bounded; covered = h.covered })
]

Reach-IsCovered : {s t : Moment} → Reach s t → IsCovered s → IsCovered t
Reach-IsCovered at_start h = h
Reach-IsCovered (then_step r st) h = Step-IsCovered st (Reach-IsCovered r h)

abbrev pub after_load : Tables → Moment
after_load tables = record {
  tables = tables;
  cache = load_config tables;
  in_flight = [];
  told = none;
}

after_load-IsCovered : (tables : Tables) → IsCovered (after_load tables)
after_load-IsCovered tables = record {
  bounded = omega (arith, load_config_version tables);
  covered = λ le. inl (refl, refl);
}

settled_lem :
    (tables : Tables) (cache : CachedConfig)
    → cache.version ≡ latest_version tables
    → SameRows tables cache
    → cache ≡ load_config tables
unfolding load_config
settled_lem tables cache e (routes, policies) =
    λ i. record { routes = routes i; policies = policies i; version = e i }

-- A gateway loads its configuration, and then requests write, read the latest version and insert the
-- next one, each at its own time, with checks of the gateway between, which read the latest version
-- at one time and decide and load at a later one. Each load finds the tables of one moment, and no
-- query fails. Whenever no request is between its write and its insert, the next check, with no write
-- between its queries, leaves the configuration of the tables.
pub check_and_reload-Reach :
    (tables : Tables) (s : Moment)
    → Reach (after_load tables) s
    → s.in_flight ≡ []
    → check_and_reload s.tables s.cache ≡ load_config s.tables
check_and_reload-Reach tables s r idle =
    let h = Reach-IsCovered r (after_load-IsCovered tables) in
    elim (dec_lt s.cache.version (latest_version s.tables)) [
      | yes low ↦ reloads s.tables s.cache low
      | no ahead ↦
          rests s.tables s.cache (omega (arith, ahead)) ∙ elim (h.covered (omega (arith, ahead))) [
            | inl rows ↦ settled_lem s.tables s.cache (omega (arith, ahead, h.bounded)) rows
            | inr some_will ↦ absurd (subst (Some s.cache.version) idle some_will)
          ]
    ]
