-- ===== src/Storage/Order.antt =====
-- The order of the enabled routes, and the order of the versions.
use ts_api_gateway.Common.{
  leb, leb→le, Bool-cases, length, keep, All, All-weaken, ℕ, ◌≤◌, ◌≡◌, inl, inr, Bool, true, List,
  [], ◌∷◌, arith,
}
use ts_api_gateway.Models.{Route}
use ts_api_gateway.Router.Specificity.{LongestFirst}
use ts_api_gateway.Storage.{Tables, insert_row, order_by}
use ts_api_gateway.Storage.Routes.{find_enabled}

module _ {A : Type 0} (key : A → ℕ) where
  abbrev descending : A → A → Bool
  descending a b = leb (key b) (key a)

  -- No later element has a larger key.
  abbrev pub Descends : List A → Type 0
  Descends [] = Unit
  Descends (x ∷ xs) = All (λ y. key y ≤ key x) xs × Descends xs

  All-insert_row :
      (P : A → Type 0) (x : A) (xs : List A) → P x → All P xs → All P (insert_row descending x xs)
  unfolding insert_row
  All-insert_row P x [] p h = (p, tt)
  All-insert_row P x (y ∷ ys) p h = elim (Bool-cases (leb (key y) (key x))) [
    | inl before_it ↦ rw before_it (p, h)
    | inr behind_it ↦ rw behind_it (h.0, All-insert_row P x ys p h.1)
  ]

  insert_row-Descends : (x : A) (xs : List A) → Descends xs → Descends (insert_row descending x xs)
  unfolding insert_row
  insert_row-Descends x [] h = (tt, tt)
  insert_row-Descends x (y ∷ ys) h = elim (Bool-cases (leb (key y) (key x))) [
    | inl before_it ↦ rw before_it (
      (
        leb→le _ _ before_it,
        All-weaken (λ z. key z ≤ key y) (λ z. key z ≤ key x) ys
            (λ z le. omega (arith, le, leb→le _ _ before_it)) h.0,
      ),
      h,
    )
    | inr behind_it ↦ rw behind_it (
      All-insert_row (λ z. key z ≤ key y) x ys (ground (arith, behind_it)) h.0,
      insert_row-Descends x ys h.1,
    )
  ]

  pub order_by-Descends : (xs : List A) → Descends (order_by descending xs)
  unfolding order_by
  order_by-Descends [] = tt
  order_by-Descends (x ∷ xs) = insert_row-Descends x (order_by descending xs) (order_by-Descends xs)

  All-order_by : (P : A → Type 0) (xs : List A) → All P xs → All P (order_by descending xs)
  unfolding order_by
  All-order_by P [] h = tt
  All-order_by P (x ∷ xs) h =
      All-insert_row P x (order_by descending xs) h.0 (All-order_by P xs h.1)

-- `findEnabled` returns the routes longest prefix first.
pub find_enabled-LongestFirst : (tables : Tables) → LongestFirst (find_enabled tables)
unfolding find_enabled
find_enabled-LongestFirst tables =
    order_by-Descends (λ (r : Route). length r.path_prefix) (keep (λ r. r.enabled) tables.routes)

-- Sorting keeps the elements: a predicate holds of all sorted ones exactly when of all given ones.
module _ {A : Type 0} (precedes : A → A → Bool) (P : A → Type 0) where
  All-of_insert_row : (x : A) (xs : List A) → All P (insert_row precedes x xs) → P x × All P xs
  unfolding insert_row
  All-of_insert_row x [] h = h
  All-of_insert_row x (y ∷ ys) h = elim (Bool-cases (precedes x y)) [
    | inl b ↦ rw b at h
    | inr b ↦
        let h' : P y × All P (insert_row precedes x ys) = rw b at h in
        let (p, rest) = All-of_insert_row x ys h'.1 in (p, (h'.0, rest))
  ]

  pub All-of_order_by : (xs : List A) → All P (order_by precedes xs) → All P xs
  unfolding order_by
  All-of_order_by [] h = tt
  All-of_order_by (x ∷ xs) h =
      let (p, rest) = All-of_insert_row x (order_by precedes xs) h in (p, All-of_order_by xs rest)

  pub All-of_keep :
      (p : A → Bool) (xs : List A) → All P (keep p xs) → All (λ x. p x ≡ true → P x) xs
  All-of_keep p [] h = tt
  All-of_keep p (x ∷ xs) h = elim (Bool-cases (p x)) [
    | inl on ↦
        let kept : P x × All P (keep p xs) = rw on at h in ((λ _. kept.0), All-of_keep p xs kept.1)
    | inr off ↦ ((λ on. cc (on, off)), All-of_keep p xs (rw off at h))
  ]

-- What holds of all routes that `findEnabled` returns holds of all enabled rows.
pub All-of_find_enabled :
    (P : Route → Type 0) (tables : Tables)
    → All P (find_enabled tables)
    → All (λ r. r.enabled ≡ true → P r) tables.routes
unfolding find_enabled
All-of_find_enabled P tables h =
    All-of_keep (λ a b. true) P (λ r. r.enabled) tables.routes (All-of_order_by _ P _ h)

All-kept_with_test :
    {A : Type 0} (P : A → Type 0) (p : A → Bool) (xs : List A)
    → All P xs
    → All (λ x. P x × (p x ≡ true)) (keep p xs)
All-kept_with_test P p [] h = tt
All-kept_with_test P p (x ∷ xs) h = elim (Bool-cases (p x)) [
  | inl on ↦ rw on ((h.0, on), All-kept_with_test P p xs h.1)
  | inr off ↦ rw off (All-kept_with_test P p xs h.1)
]

-- What holds of all rows holds of all routes that `findEnabled` returns, and those are enabled.
pub All-find_enabled :
    (P : Route → Type 0) (tables : Tables)
    → All P tables.routes
    → All (λ r. P r × (r.enabled ≡ true)) (find_enabled tables)
unfolding find_enabled
All-find_enabled P tables h =
    All-order_by (λ (r : Route). length r.path_prefix) (λ r. P r × (r.enabled ≡ true))
      (keep (λ r. r.enabled) tables.routes)
      (All-kept_with_test P (λ (r : Route). r.enabled) tables.routes h)
