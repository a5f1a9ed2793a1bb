-- ===== src/ConfigCache/Serving.antt =====
-- From the admin API to the matcher: what a gateway serves after the changes of its tables.
use mathlib.Core.Path.{subst}
use ts_api_gateway.Common.{
  Option-cases, length, All, All-weaken, ◌≤◌, ◌≡◌, refl, sym, ◌⊎◌, inl, inr, true, Option, none,
  some, List, [], ◌∷◌, Text,
}
use ts_api_gateway.ConfigCache.{load_config, check_and_reload}
use ts_api_gateway.ConfigCache.Freshness.{
  Event, after_events, Published, check_and_reload-after_Published,
}
use ts_api_gateway.ConfigCache.Reload.{load_config-MostSpecific}
use ts_api_gateway.Gateway.{CachedConfig}
use ts_api_gateway.Models.{Route}
use ts_api_gateway.Router.{MatchResult, match_route}
use ts_api_gateway.Router.Cover.{
  Covers, Forwarded, FirstCover, here, later, match_route-FirstCover_iff, match_route-eq-none_iff,
}
use ts_api_gateway.Storage.{Tables}
use ts_api_gateway.Storage.Order.{All-of_find_enabled, All-find_enabled}
use ts_api_gateway.Storage.Routes.{find_enabled}

abbrev pub Among : Route → List Route → Type 0
Among r [] = ⊥
Among r (s ∷ rows) = (r ≡ s) ⊎ Among r rows

All-Among : (rows : List Route) → All (λ r. Among r rows) rows
All-Among [] = tt
All-Among (s ∷ rows) = (
  inl refl,
  All-weaken (λ r. Among r rows) (λ r. Among r (s ∷ rows)) rows (λ r h. inr h) (All-Among rows),
)

-- What holds of all listed routes holds of the matched one.
FirstCover-holds :
    (P : Route → Type 0) (path : Text) (m : MatchResult) (routes : List Route)
    → All P routes
    → FirstCover path m routes
    → P m.route × Covers m.route path × Forwarded m.route path m.upstream_path
FirstCover-holds P path m [] h f = elim f [ ]
FirstCover-holds P path m (r ∷ rs) h (here covers same up) = (
  subst P (sym same) h.0,
  subst (λ s. Covers s path) (sym same) covers,
  subst (λ s. Forwarded s path m.upstream_path) (sym same) up,
)
FirstCover-holds P path m (r ∷ rs) h (later uncovered f) = FirstCover-holds P path m rs h.1 f

-- A row that the match names.
abbrev pub Serves : Tables → Text → MatchResult → Type 0
Serves tables path m =
    Among m.route tables.routes
    × (m.route.enabled ≡ true)
    × Covers m.route path
    × Forwarded m.route path m.upstream_path
    × All
        (λ r. r.enabled ≡ true → Covers r path → length r.path_prefix ≤ length m.route.path_prefix)
        tables.routes

-- What the tables let the matcher find for a path.
abbrev pub Routed : Tables → Text → Option MatchResult → Type 0
Routed tables path result =
    ((result ≡ none) × All (λ r. r.enabled ≡ true → ¬ Covers r path) tables.routes)
    ⊎ ((m : MatchResult) × (result ≡ some m) × Serves tables path m)

load_config-Routed :
    (tables : Tables) (path : Text)
    → Routed tables path (match_route path (load_config tables).routes)
unfolding load_config
load_config-Routed tables path = elim (Option-cases (match_route path (find_enabled tables))) [
  | inl unmatched ↦ inl (
    unmatched,
    All-of_find_enabled (λ r. ¬ Covers r path) tables
        ((match_route-eq-none_iff path (find_enabled tables)).0 unmatched),
  )
  | inr (m, matched) ↦
      let (named, covers, up) =
        FirstCover-holds (λ r. Among r tables.routes × (r.enabled ≡ true)) path m
          (find_enabled tables)
          (All-find_enabled (λ r. Among r tables.routes) tables (All-Among tables.routes))
          ((match_route-FirstCover_iff path (find_enabled tables) m).0 matched) in
      inr
        (m, matched, (named.0, named.1, covers, up, load_config-MostSpecific tables path m matched))
]

-- What a gateway that loaded the tables once matches after any admin requests and polls, of which no
-- `bump` broke off before its insert, and the next poll. It finds nothing exactly if no enabled row
-- of the tables of that moment covers the path. What it finds is an enabled row of these tables that
-- covers the path, with the upstream path that its `strip_path` asks for, and no enabled row that
-- covers the path has a longer prefix. No write comes between the queries of one poll.
pub check_and_reload-Routed :
    (events : List Event) (tables : Tables) (path : Text)
    → Published events
    → let (tables', cache) = after_events events (tables, load_config tables) in
      Routed tables' path (match_route path (check_and_reload tables' cache).routes)
check_and_reload-Routed events tables path published =
    let (tables', cache) = after_events events (tables, load_config tables) in
    subst (λ (c : CachedConfig). Routed tables' path (match_route path c.routes))
      (sym (check_and_reload-after_Published events tables published))
      (load_config-Routed tables' path)
