-- ===== src/Common/StringLaws.antt =====
-- Laws of the string methods: prefixes, the part before a character, splitting.
use ts_api_gateway.Common.{
  ◌==◌, Bool-cases, length, take, drop, All, ℕ, ◌+◌, ◌-◌, ◌≡◌, refl, ◌≢◌, inl, inr, true, false,
  none, some, List, [], ◌∷◌, ◌++◌, arith, Text, starts_with, before, behind, has, index_of, split,
  onto,
}

pub starts_with-append : (p s : Text) → starts_with (p ++ s) p ≡ true
unfolding starts_with
starts_with-append [] [] = refl
starts_with-append [] (a ∷ s) = refl
starts_with-append (a ∷ p) s = ground (arith, starts_with-append p s)

-- A text that starts with `p` is `p` followed by what `slice(p.length)` leaves.
pub eq-append-drop_of_starts_with :
    (s p : Text) → starts_with s p ≡ true → s ≡ p ++ drop (length p) s
unfolding starts_with
eq-append-drop_of_starts_with s [] h = refl
eq-append-drop_of_starts_with [] (b ∷ p) h = cc
eq-append-drop_of_starts_with (a ∷ s) (b ∷ p) h = ground (arith, eq-append-drop_of_starts_with s p)

-- The first part of a split is the text before the first separator.
pub before-eq-of-has : (c : ℕ) (s : Text) → has c s ≡ false → before c s ≡ s
unfolding has before
before-eq-of-has c [] h = refl
before-eq-of-has c (a ∷ s) h = ground (arith, before-eq-of-has c s)

pub before-append : (c : ℕ) (s t : Text) → has c s ≡ false → before c (s ++ c ∷ t) ≡ s
unfolding has before
before-append c [] t h = ground arith
before-append c (a ∷ s) t h = ground (arith, before-append c s t)

pub behind-append : (c : ℕ) (s t : Text) → has c s ≡ false → behind c (s ++ c ∷ t) ≡ t
unfolding has behind
behind-append c [] t h = ground arith
behind-append c (a ∷ s) t h = ground (arith, behind-append c s t)

pub has-before : (c : ℕ) (s : Text) → has c (before c s) ≡ false
unfolding has before
has-before c [] = refl
has-before c (a ∷ s) = ground (arith, has-before c s)

pub has-append : (c : ℕ) (s t : Text) → has c s ≡ false → has c t ≡ false → has c (s ++ t) ≡ false
unfolding has
has-append c [] t h k = k
has-append c (a ∷ s) t h k = ground (arith, has-append c s t)

-- `s.split(c)` of a text without `c` is one part.
pub split_of_has : (c : ℕ) (s : Text) → has c s ≡ false → split c s ≡ s ∷ []
unfolding has split
split_of_has c [] h = refl
split_of_has c (a ∷ s) h = ground (arith, split_of_has c s)

-- Splitting consumes a part and its separator.
pub split-append : (c : ℕ) (s t : Text) → has c s ≡ false → split c (s ++ c ∷ t) ≡ s ∷ split c t
unfolding has split
split-append c [] t h = ground arith
split-append c (a ∷ s) t h = ground (arith, split-append c s t)

pub split-ne-nil : (c : ℕ) (s : Text) → split c s ≢ []
unfolding split
split-ne-nil c [] e = cc
split-ne-nil c (a ∷ s) e = elim (Bool-cases (a == c)) [
  | inl h ↦ cc (rw h at e)
  | inr h ↦ onto-ne-nil a (split c s) (rw h at e)
]
  where
    onto-ne-nil : (a : ℕ) (ps : List Text) → onto a ps ≢ []
    onto-ne-nil a [] e = cc
    onto-ne-nil a (p ∷ ps) e = cc

onto-All :
    (c a : ℕ) (ps : List Text)
    → (a == c) ≡ false
    → All (λ p. has c p ≡ false) ps
    → All (λ p. has c p ≡ false) (onto a ps)
unfolding has
onto-All c a [] e h = (ground arith, tt)
onto-All c a (p ∷ ps) e h = (ground arith, h.1)

-- No part of a split holds the separator.
pub split-All-has : (c : ℕ) (s : Text) → All (λ p. has c p ≡ false) (split c s)
unfolding split has
split-All-has c [] = (refl, tt)
split-All-has c (a ∷ s) = elim (Bool-cases (a == c)) [
  | inl h ↦ rw h (refl, split-All-has c s)
  | inr h ↦ rw h (onto-All c a (split c s) h (split-All-has c s))
]

-- `indexOf` and `slice` cut a text at the first separator.
pub index_of-take : (c : ℕ) (s : Text) (i : ℕ) → index_of c s ≡ some i → take i s ≡ before c s
unfolding index_of before
index_of-take c [] i h = cc
index_of-take c (a ∷ s) i h = ground (arith, index_of-take c s (i - 1))

pub index_of-drop : (c : ℕ) (s : Text) (i : ℕ) → index_of c s ≡ some i → drop (i + 1) s ≡ behind c s
unfolding index_of behind
index_of-drop c [] i h = cc
index_of-drop c (a ∷ s) i h = ground (arith, index_of-drop c s (i - 1))

pub before_of_index_of : (c : ℕ) (s : Text) → index_of c s ≡ none → before c s ≡ s
unfolding index_of before
before_of_index_of c [] h = refl
before_of_index_of c (a ∷ s) h = ground (arith, before_of_index_of c s)

pub behind_of_index_of : (c : ℕ) (s : Text) → index_of c s ≡ none → behind c s ≡ []
unfolding index_of behind
behind_of_index_of c [] h = refl
behind_of_index_of c (a ∷ s) h = ground (arith, behind_of_index_of c s)
