-- ===== src/Metrics/Percentile.antt =====
-- The percentiles are those of the nearest rank.
use mathlib.Core.Path.{subst}
use ts_api_gateway.Common.{
  leb, if◌then◌else◌, leb→le, Bool-cases, length, tally, All, All-weaken, ℕ, zero, suc, ◌+◌, ◌-◌,
  ◌*◌, ◌/◌, ◌≤◌, ◌<◌, ◌≡◌, refl, sym, ap, ◌∙◌, inl, inr, Bool, true, some, List, [], ◌∷◌, arith,
}
use ts_api_gateway.Metrics.{insert_sorted, sort, get_elem?, percentile}

abbrev pub Ascending : List ℕ → Type 0
Ascending [] = Unit
Ascending (x ∷ xs) = All (λ y. x ≤ y) xs × Ascending xs

insert_sorted-All :
    (n x : ℕ) (xs : List ℕ) → n ≤ x → All (λ y. n ≤ y) xs → All (λ y. n ≤ y) (insert_sorted x xs)
unfolding insert_sorted
insert_sorted-All n x [] h k = (h, tt)
insert_sorted-All n x (y ∷ ys) h k = elim (Bool-cases (leb x y)) [
  | inl le ↦ rw le (h, k)
  | inr gt ↦ rw gt (k.0, insert_sorted-All n x ys h k.1)
]

insert_sorted-Ascending : (x : ℕ) (xs : List ℕ) → Ascending xs → Ascending (insert_sorted x xs)
unfolding insert_sorted
insert_sorted-Ascending x [] h = (tt, tt)
insert_sorted-Ascending x (y ∷ ys) h = elim (Bool-cases (leb x y)) [
  | inl le ↦
      let x_le_y = leb→le x y le in
      rw le ((x_le_y, All-weaken (λ z. y ≤ z) (λ z. x ≤ z) ys (λ z p. omega arith) h.0), h)
  | inr gt ↦ rw gt (insert_sorted-All y x ys (ground arith) h.0, insert_sorted-Ascending x ys h.1)
]

sort-Ascending : (xs : List ℕ) → Ascending (sort xs)
unfolding sort
sort-Ascending [] = tt
sort-Ascending (x ∷ xs) = insert_sorted-Ascending x (sort xs) (sort-Ascending xs)

tally-insert_sorted :
    (p : ℕ → Bool) (x : ℕ) (xs : List ℕ)
    → tally p (insert_sorted x xs) ≡ (if p x then 1 else 0) + tally p xs
unfolding insert_sorted
tally-insert_sorted p x [] = refl
tally-insert_sorted p x (y ∷ ys) = ground (arith, tally-insert_sorted p x ys)

-- Sorting loses and adds nothing.
tally-sort : (p : ℕ → Bool) (xs : List ℕ) → tally p (sort xs) ≡ tally p xs
unfolding sort
tally-sort p [] = refl
tally-sort p (x ∷ xs) =
    tally-insert_sorted p x (sort xs) ∙ ap (λ n. (if p x then 1 else 0) + n) (tally-sort p xs)

length-eq-tally : (xs : List ℕ) → length xs ≡ tally (λ _. true) xs
length-eq-tally [] = refl
length-eq-tally (x ∷ xs) = ap suc (length-eq-tally xs) ∙ omega arith

length-sort : (xs : List ℕ) → length (sort xs) ≡ length xs
length-sort xs = length-eq-tally (sort xs) ∙ tally-sort (λ _. true) xs ∙ sym (length-eq-tally xs)

tally_of_All : (v : ℕ) (xs : List ℕ) → All (λ y. v ≤ y) xs → tally (λ y. leb v y) xs ≡ length xs
tally_of_All v [] h = refl
tally_of_All v (y ∷ ys) h = ground (arith, tally_of_All v ys h.1)

get_elem?-All :
    (x : ℕ) (xs : List ℕ) (i v : ℕ) → All (λ y. x ≤ y) xs → get_elem? xs i ≡ some v → x ≤ v
get_elem?-All x [] i v h e = cc
get_elem?-All x (y ∷ ys) zero v h e = ground arith
get_elem?-All x (y ∷ ys) (suc i) v h e = get_elem?-All x ys i v h.1 e

-- The element at an index: so many are at most it, and so many at least it.
rank-at :
    (xs : List ℕ) (i v : ℕ)
    → Ascending xs
    → get_elem? xs i ≡ some v
    → (i + 1 ≤ tally (λ x. leb x v) xs) × (length xs ≤ i + tally (λ x. leb v x) xs)
rank-at [] i v h e = cc
rank-at (x ∷ xs) zero v h e =
    let same : x ≡ v = cc in
    ground (arith, tally_of_All v xs (subst (λ n. All (λ y. n ≤ y) xs) same h.0))
rank-at (x ∷ xs) (suc i) v h e = ground (arith, rank-at xs i v h.1 e, get_elem?-All x xs i v h.0 e)

get_elem?-defined : (xs : List ℕ) (i : ℕ) → i < length xs → (v : ℕ) × (get_elem? xs i ≡ some v)
get_elem?-defined [] i h = absurd (omega arith)
get_elem?-defined (x ∷ xs) zero h = (x, refl)
get_elem?-defined (x ∷ xs) (suc i) h = get_elem?-defined xs i (omega arith)

rank_bounds :
    (p n i low high : ℕ)
    → 0 < p * n
    → i ≡ (p * n + 99) / 100 - 1
    → i + 1 ≤ low
    → n ≤ i + high
    → (p * n ≤ 100 * low) × (100 * n < p * n + 100 * high)
rank_bounds p n i low high positive e h k = omega arith

rank_below : (p n : ℕ) → 0 < n → p ≤ 100 → (p * n + 99) / 100 - 1 < n
rank_below p n positive le = omega (arith, mul_mono p n le)
  where
    mul_mono : (p n : ℕ) → p ≤ 100 → p * n ≤ 100 * n
    mul_mono p n le = grind arith

product_pos : (p n : ℕ) → 0 < p → 0 < n → 0 < p * n
product_pos p n h k = grind arith

-- With at least one sample the `p`-th percentile is defined; at least `p` percent of the samples
-- are at most it, and more than the remaining percentage are at least it.
pub percentile-rank :
    (p : ℕ) (samples : List ℕ)
    → 0 < p
    → p ≤ 100
    → 0 < length samples
    → (v : ℕ) × (percentile p (sort samples) ≡ some v)
      × (p * length samples ≤ 100 * tally (λ x. leb x v) samples)
      × (100 * length samples < p * length samples + 100 * tally (λ x. leb v x) samples)
unfolding percentile
percentile-rank p samples low high some_sample =
    let n = length-sort samples in
    let i = (p * length (sort samples) + 99) / 100 - 1 in
    let (v, e) =
      get_elem?-defined (sort samples) i
        (rank_below p (length (sort samples)) (rw n some_sample) high) in
    let (below_it, above_it) = rank-at (sort samples) i v (sort-Ascending samples) e in
    let bounds =
      rank_bounds p (length samples) i (tally (λ x. leb x v) samples) (tally (λ x. leb v x) samples)
        (product_pos p (length samples) low some_sample) (ap (λ k. (p * k + 99) / 100 - 1) n)
        (rw (sym (tally-sort (λ x. leb x v) samples)) below_it)
        (rw (sym (tally-sort (λ x. leb v x) samples)) (rw (sym n) above_it)) in
    (v, e, bounds.0, bounds.1)
