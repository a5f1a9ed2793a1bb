-- ===== src/CacheService/Invalidation.antt =====
-- The loop of invalidateRoute: it ends, and removes what it should.
use ts_api_gateway.CacheService.{
  CacheClient, cursor_zero, route_prefix, delete_keys, scan_from, invalidate_route,
}
use ts_api_gateway.CacheService.Scans.{Scans}
use ts_api_gateway.Common.{
  if◌then◌else◌, Bool-cases, Option-cases, ℕ, zero, suc, ◌<◌, ◌≡◌, refl, ◌∙◌, ◌⊎◌, inl, inr, true,
  false, none, some, List, [], ◌∷◌, ◌++◌, arith, Text, codes, text_eq, starts_with,
}
use ts_api_gateway.Proxy.{resolved}
use ts_api_gateway.Proxy.Retry.{member}

module _ {W : Type 0} (client : CacheClient W) (prefix : Text) (s : Scans client prefix) where
  abbrev star : Text
  star = prefix ++ codes "*"

  -- The world after one round of the loop.
  abbrev round : Text → W → W
  round cursor w = (delete_keys client star (s.page cursor w).1 (client.scan cursor star w).1).1

  delete_keys-answers :
      (keys : List Text) (w : W) → (delete_keys client star keys w).0 ≡ resolved tt
  unfolding delete_keys
  delete_keys-answers [] w = refl
  delete_keys-answers (k ∷ keys) w = s.del_answers (k ∷ keys) w

  delete_keys-stored :
      (j : Text) (keys : List Text) (w : W)
      → s.stored j (delete_keys client star keys w).1
        ≡ (if member j keys then none else s.stored j w)
  unfolding delete_keys member
  delete_keys-stored j [] w = refl
  delete_keys-stored j (k ∷ keys) w = s.del_stored j (k ∷ keys) w

  delete_keys-due :
      (j cursor : Text) (keys : List Text) (w : W)
      → member j keys ≡ false
      → s.due j cursor w ≡ true
      → s.due j cursor (delete_keys client star keys w).1 ≡ true
  unfolding delete_keys
  delete_keys-due j cursor [] w unlisted h = h
  delete_keys-due j cursor (k ∷ keys) w unlisted h = s.del_due j cursor (k ∷ keys) w unlisted h

  round-stored :
      (j cursor : Text) (w : W)
      → s.stored j (round cursor w) ≡ (if member j (s.page cursor w).1 then none else s.stored j w)
  round-stored j cursor w = ground (
    arith,
    delete_keys-stored j (s.page cursor w).1 (client.scan cursor star w).1,
    s.scan_stored j cursor w,
  )

  scan_from_step :
      (fuel : ℕ) (cursor : Text) (w : W)
      → scan_from client star (suc fuel) cursor w
        ≡ (elim (text_eq (s.page cursor w).0 cursor_zero) [
          | true ↦ some (round cursor w)
          | false ↦ scan_from client star fuel (s.page cursor w).0 (round cursor w)
        ])
  unfolding scan_from
  scan_from_step fuel cursor w = ground (
    arith,
    s.scan_answers cursor w,
    delete_keys-answers (s.page cursor w).1 (client.scan cursor star w).1,
  )

  -- With enough fuel the loop ends, in a world where what its rounds keep and its last one gives
  -- holds.
  scan_from_inv :
      (I : Text → W → Type 0) (J : W → Type 0)
      → ((cursor : Text) (w : W)
          → text_eq (s.page cursor w).0 cursor_zero ≡ false
          → I cursor w
          → I (s.page cursor w).0 (round cursor w))
      → ((cursor : Text) (w : W)
          → text_eq (s.page cursor w).0 cursor_zero ≡ true
          → I cursor w
          → J (round cursor w))
      → (fuel : ℕ) (cursor : Text) (w : W) → s.left cursor < fuel
      → I cursor w
      → (w' : W) × (scan_from client star fuel cursor w ≡ some w') × J w'
  scan_from_inv I J go_on stop zero cursor w lt h = absurd (omega (arith, lt))
  scan_from_inv I J go_on stop (suc fuel) cursor w lt h =
      let rest = λ (more : text_eq (s.page cursor w).0 cursor_zero ≡ false).
        scan_from_inv I J go_on stop fuel (s.page cursor w).0 (round cursor w)
          (omega (arith, lt, s.scan_ends cursor w more)) (go_on cursor w more h) in
      elim (Bool-cases (text_eq (s.page cursor w).0 cursor_zero)) [
        | inl last_page ↦ (
          round cursor w,
          scan_from_step fuel cursor w ∙ rw last_page refl,
          stop cursor w last_page h,
        )
        | inr more ↦
            ((rest more).0, scan_from_step fuel cursor w ∙ rw more (rest more).1, (rest more).2)
      ]

  -- A key that is due or gone is gone or due after a round, and gone after the last one.
  abbrev GoneOrDue : Text → Text → W → Type 0
  GoneOrDue j cursor w = (s.stored j w ≡ none) ⊎ (s.due j cursor w ≡ true)

  round-gone :
      (j cursor : Text) (w : W)
      → (s.stored j w ≡ none) ⊎ (member j (s.page cursor w).1 ≡ true)
      → s.stored j (round cursor w) ≡ none
  round-gone j cursor w (inl gone) = ground (arith, gone, round-stored j cursor w)
  round-gone j cursor w (inr listed) = ground (arith, listed, round-stored j cursor w)

  go_on-GoneOrDue :
      (j cursor : Text) (w : W)
      → GoneOrDue j cursor w
      → GoneOrDue j (s.page cursor w).0 (round cursor w)
  go_on-GoneOrDue j cursor w (inl gone) = inl (round-gone j cursor w (inl gone))
  go_on-GoneOrDue j cursor w (inr due_now) = elim (s.due_next j cursor w due_now) [
    | inl listed ↦ inl (round-gone j cursor w (inr listed))
    | inr (more, still) ↦ elim (Bool-cases (member j (s.page cursor w).1)) [
      | inl listed ↦ inl (round-gone j cursor w (inr listed))
      | inr unlisted ↦ inr (
          delete_keys-due j (s.page cursor w).0 (s.page cursor w).1 (client.scan cursor star w).1
            unlisted still)
    ]
  ]

  stop-gone :
      (j cursor : Text) (w : W)
      → text_eq (s.page cursor w).0 cursor_zero ≡ true
      → GoneOrDue j cursor w
      → s.stored j (round cursor w) ≡ none
  stop-gone j cursor w last_page (inl gone) = round-gone j cursor w (inl gone)
  stop-gone j cursor w last_page (inr due_now) = elim (s.due_next j cursor w due_now) [
    | inl listed ↦ round-gone j cursor w (inr listed)
    | inr (more, still) ↦ cc
  ]

  -- A round leaves a key alone that does not match.
  round-spares :
      (j cursor : Text) (w : W)
      → starts_with j prefix ≡ false
      → s.stored j (round cursor w) ≡ s.stored j w
  round-spares j cursor w differs =
      ground (arith, differs, round-stored j cursor w, s.scan_matches j cursor w)

  scan_from-removes :
      (j : Text) (fuel : ℕ) (w : W)
      → s.left cursor_zero < fuel
      → (w' : W) × (scan_from client star fuel cursor_zero w ≡ some w')
        × (s.stored j w' ≡ (if starts_with j prefix then none else s.stored j w))
  scan_from-removes j fuel w lt = elim (Bool-cases (starts_with j prefix)) [
    | inl matches ↦
        let started : GoneOrDue j cursor_zero w = elim (Option-cases (s.stored j w)) [
          | inl gone ↦ inl gone
          | inr (v, there) ↦ inr (s.due_first j v w matches there)
        ] in
        let (w', ends, gone) =
          scan_from_inv (GoneOrDue j) (λ u. s.stored j u ≡ none)
            (λ c u more h. go_on-GoneOrDue j c u h) (stop-gone j) fuel cursor_zero w lt started in
        (w', ends, rw matches gone)
    | inr differs ↦
        let (w', ends, same) =
          scan_from_inv (λ c u. s.stored j u ≡ s.stored j w) (λ u. s.stored j u ≡ s.stored j w)
            (λ c u more h. round-spares j c u differs ∙ h)
            (λ c u last_page h. round-spares j c u differs ∙ h) fuel cursor_zero w lt refl in
        (w', ends, rw differs same)
  ]

-- With a Redis that answers, the loop of `invalidateRoute` ends within the calls that the iteration
-- may take, and then every key that starts with the route's prefix is gone and every other key has
-- the value that it had.
pub invalidate_route-removes :
    {W : Type 0} (client : CacheClient W) (route_name : Text)
    (s : Scans client (route_prefix route_name)) (j : Text) (fuel : ℕ) (w : W)
    → s.left cursor_zero < fuel
    → (w' : W) × (invalidate_route client fuel route_name w ≡ some w')
      × (s.stored j w' ≡ (if starts_with j (route_prefix route_name) then none else s.stored j w))
unfolding invalidate_route
invalidate_route-removes client route_name s j fuel w lt =
    scan_from-removes client (route_prefix route_name) s j fuel w lt
