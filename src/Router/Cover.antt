-- ===== src/Router/Cover.antt =====
-- The matcher against a description of what a route covers, independent of the code.
-- A route covers its prefix itself and whatever continues it with a slash.
use mathlib.Core.List.{append-nil}
use mathlib.Core.Path.{subst}
use ts_api_gateway.Common.{
  if◌then◌else◌, Bool-cases, length, drop, drop-length-append, All, ◌≡◌, refl, sym, ap, ◌∙◌, ◌↔◌,
  ◌⊎◌, inl, inr, Bool, true, false, not, ◌&&◌, none, some, List, [], ◌∷◌, ◌++◌, arith, Text, codes,
  text_eq, starts_with,
}
use ts_api_gateway.Common.StringLaws.{starts_with-append, eq-append-drop_of_starts_with}
use ts_api_gateway.Models.{Route}
use ts_api_gateway.Router.{MatchResult, or_slash, match_route}

abbrev pub Covers : Route → Text → Type 0
Covers r path = (path ≡ r.path_prefix) ⊎ ((rest : Text) × (path ≡ r.path_prefix ++ (b'/' ∷ rest)))

-- What the upstream of a route sees of a covered path.
abbrev pub Forwarded : Route → Text → Text → Type 0
Forwarded r path up =
    ((r.strip_path ≡ false) × (up ≡ path))
    ⊎ ((r.strip_path ≡ true) × (path ≡ r.path_prefix) × (up ≡ codes "/"))
    ⊎ ((rest : Text) × (r.strip_path ≡ true)
        × (path ≡ r.path_prefix ++ (b'/' ∷ rest))
        × (up ≡ b'/' ∷ rest))

-- The first route that covers the path, and what its upstream sees.
pub data FirstCover (path : Text) (m : MatchResult) : List Route → Type 0 where
  here :
      {r : Route} {rs : List Route}
      → Covers r path
      → m.route ≡ r
      → Forwarded r path m.upstream_path
      → FirstCover path m (r ∷ rs)
  later :
      {r : Route} {rs : List Route}
      → ¬ Covers r path
      → FirstCover path m rs
      → FirstCover path m (r ∷ rs)

-- A suffix is empty or begins with a slash.
abbrev boundary : Text → Bool
boundary after = not (not (text_eq after []) && not (starts_with after (codes "/")))

Covers-of_boundary :
    (r : Route) (path after : Text)
    → path ≡ r.path_prefix ++ after
    → boundary after ≡ true
    → Covers r path
unfolding text_eq starts_with
Covers-of_boundary r path [] e h = inl (e ∙ append-nil r.path_prefix)
Covers-of_boundary r path (a ∷ s) e h = inr (s, rw (← slash) e)
  where
    slash : a ≡ b'/'
    slash = ground arith

boundary_of_Covers :
    (r : Route) (path : Text)
    → Covers r path
    → (starts_with path r.path_prefix ≡ true) × (boundary (drop (length r.path_prefix) path) ≡ true)
unfolding text_eq starts_with
boundary_of_Covers r path (inl e) =
    rw (e ∙ sym (append-nil r.path_prefix), drop-length-append)
      (starts_with-append r.path_prefix [], refl)
boundary_of_Covers r path (inr (rest, e)) =
    rw (e, drop-length-append) (starts_with-append r.path_prefix (b'/' ∷ rest), refl)

stripped :
    (r : Route) (path after : Text)
    → path ≡ r.path_prefix ++ after
    → boundary after ≡ true
    → r.strip_path ≡ true
    → Forwarded r path (or_slash after)
unfolding text_eq starts_with
stripped r path [] e h k = inr (inl (k, e ∙ append-nil r.path_prefix, refl))
stripped r path (a ∷ s) e h k =
    let slash : a ≡ b'/' = ground arith in inr (inr (s, k, rw (← slash) e, ground arith))

forwarded_if :
    (b : Bool) (r : Route) (path after : Text)
    → path ≡ r.path_prefix ++ after
    → boundary after ≡ true
    → r.strip_path ≡ b
    → Forwarded r path (if b then or_slash after else path)
forwarded_if true r path after e h k = stripped r path after e h k
forwarded_if false r path after e h k = inl (k, refl)

-- One round of the loop: the route covers the path and is chosen, or it does not and is skipped.
pub match_route-cases :
    (path : Text) (r : Route) (rs : List Route)
    → ((¬ Covers r path) × (match_route path (r ∷ rs) ≡ match_route path rs))
      ⊎ ((m : MatchResult) × (match_route path (r ∷ rs) ≡ some m)
          × Covers r path
          × (m.route ≡ r)
          × Forwarded r path m.upstream_path)
unfolding match_route
match_route-cases path r rs = elim (Bool-cases (starts_with path r.path_prefix)) [
  | inr other ↦ inl (λ c. cc (other, (boundary_of_Covers r path c).0), rw other)
  | inl prefix ↦
      let after = drop (length r.path_prefix) path in
      let e = eq-append-drop_of_starts_with path r.path_prefix prefix in
      elim (Bool-cases (boundary after)) [
        | inr inside ↦ inl (λ c. cc (inside, (boundary_of_Covers r path c).1), ground arith)
        | inl whole ↦ inr (
          record { route = r; upstream_path = if r.strip_path then or_slash after else path },
          ground arith,
          Covers-of_boundary r path after e whole,
          refl,
          forwarded_if r.strip_path r path after e whole refl,
        )
      ]
]

FirstCover-of_match_route :
    (path : Text) (routes : List Route) (m : MatchResult)
    → match_route path routes ≡ some m
    → FirstCover path m routes
FirstCover-of_match_route path [] m h = unfold match_route in cc h
FirstCover-of_match_route path (r ∷ rs) m h = elim (match_route-cases path r rs) [
  | inl (other, e) ↦ later other (FirstCover-of_match_route path rs m (sym e ∙ h))
  | inr (m', e, c, same, up) ↦
      let chosen : m' ≡ m = ground (arith, e, h) in
      here c (ap (λ (x : MatchResult). x.route) (sym chosen) ∙ same)
        (subst (λ x. Forwarded r path x.upstream_path) chosen up)
]

suffix_of :
    (r : Route) (path after : Text)
    → path ≡ r.path_prefix ++ after
    → drop (length r.path_prefix) path ≡ after
suffix_of r path after e = rw e (drop-length-append r.path_prefix after)

bare_suffix_of :
    (r : Route) (path : Text) → path ≡ r.path_prefix → drop (length r.path_prefix) path ≡ []
bare_suffix_of r path e = suffix_of r path [] (e ∙ sym (append-nil r.path_prefix))

Forwarded_unique : (r : Route) (path a b : Text) → Forwarded r path a → Forwarded r path b → a ≡ b
Forwarded_unique r path a b (inl (k, e)) (inl (_, e')) = cc
Forwarded_unique r path a b (inl (k, e)) (inr (inl (k', _, _))) = cc
Forwarded_unique r path a b (inl (k, e)) (inr (inr (_, k', _, _))) = cc
Forwarded_unique r path a b (inr (inl (k, _, _))) (inl (k', _)) = cc
Forwarded_unique r path a b (inr (inl (_, p, e))) (inr (inl (_, p', e'))) = cc
Forwarded_unique r path a b (inr (inl (_, p, e))) (inr (inr (rest, _, p', e'))) =
    cc (bare_suffix_of r path p, suffix_of r path (b'/' ∷ rest) p')
Forwarded_unique r path a b (inr (inr (_, k, _, _))) (inl (k', _)) = cc
Forwarded_unique r path a b (inr (inr (rest, _, p, e))) (inr (inl (_, p', e'))) =
    cc (bare_suffix_of r path p', suffix_of r path (b'/' ∷ rest) p)
Forwarded_unique r path a b (inr (inr (rest, _, p, e))) (inr (inr (rest', _, p', e'))) =
    cc (suffix_of r path (b'/' ∷ rest) p, suffix_of r path (b'/' ∷ rest') p')

match_route_of_FirstCover :
    (path : Text) (routes : List Route) (m : MatchResult)
    → FirstCover path m routes
    → match_route path routes ≡ some m
match_route_of_FirstCover path [] m f = elim f [ ]
match_route_of_FirstCover path (r ∷ rs) m (later other f) = elim (match_route-cases path r rs) [
  | inl (_, e) ↦ e ∙ match_route_of_FirstCover path rs m f
  | inr (_, _, c, _, _) ↦ absurd (other c)
]
match_route_of_FirstCover path (r ∷ rs) m (here c same up) = elim (match_route-cases path r rs) [
  | inl (other, _) ↦ absurd (other c)
  | inr (m', e, _, same', up') ↦
      ground
        (arith, e, same, same', Forwarded_unique r path m.upstream_path m'.upstream_path up up')
]

-- The matcher returns a route exactly when that is the first listed route that covers the path on
-- a segment boundary, with the upstream path that the route's `strip_path` asks for.
pub match_route-FirstCover_iff :
    (path : Text) (routes : List Route) (m : MatchResult)
    → (match_route path routes ≡ some m) ↔ FirstCover path m routes
match_route-FirstCover_iff path routes m =
    (FirstCover-of_match_route path routes m, match_route_of_FirstCover path routes m)

-- The matcher finds nothing exactly when no route covers the path.
pub match_route-eq-none_iff :
    (path : Text) (routes : List Route)
    → (match_route path routes ≡ none) ↔ All (λ r. ¬ Covers r path) routes
match_route-eq-none_iff path [] = unfold match_route in (λ h. tt, λ h. refl)
match_route-eq-none_iff path (r ∷ rs) = elim (match_route-cases path r rs) [
  | inl (other, e) ↦
      let (to, from) = match_route-eq-none_iff path rs in
      (λ h. (other, to (sym e ∙ h)), λ h. e ∙ from h.1)
  | inr (m, e, c, _, _) ↦ (λ h. cc (e, h), λ h. absurd (h.0 c))
]
