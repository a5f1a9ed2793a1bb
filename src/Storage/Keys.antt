-- ===== src/Storage/Keys.antt =====
-- The keys of the tables, and that the writes under the constraints keep them.
use ts_api_gateway.Common.{
  Bool-cases, keep, ◌≡◌, refl, inl, inr, Bool, true, false, not, ◌&&◌, none, List, [], ◌∷◌, ◌++◌,
  arith, Text, text_eq, text_eq_iff,
}
use ts_api_gateway.Storage.{first_row, update_rows}
use ts_api_gateway.Storage.Rows.{is, first_row-append}

module _ {A : Type 0} (key : A → Text) where
  -- No row has the key.
  abbrev pub Free : Text → List A → Type 0
  Free k xs = first_row (is key k) xs ≡ none

  -- No two rows have the same key.
  abbrev pub Distinct : List A → Type 0
  Distinct [] = Unit {0}
  Distinct (x ∷ xs) = Free (key x) xs × Distinct xs

  Free-keep : (p : A → Bool) (k : Text) (xs : List A) → Free k xs → Free k (keep p xs)
  unfolding first_row
  Free-keep p k [] e = e
  Free-keep p k (x ∷ xs) e = ground (arith, e, Free-keep p k xs)

  Free-update_rows :
      (p : A → Bool) (f : A → A) (k : Text) (xs : List A)
      → ((x : A) → p x ≡ true → key (f x) ≡ key x)
      → Free k xs
      → Free k (update_rows p f xs)
  unfolding first_row update_rows
  Free-update_rows p f k [] same e = e
  Free-update_rows p f k (x ∷ xs) same e = ground (arith, e, same x, Free-update_rows p f k xs same)

  Free-moved :
      (p : A → Bool) (f : A → A) (k : Text) (xs : List A)
      → ((x : A) → p x ≡ true → text_eq (key (f x)) k ≡ false)
      → Free k xs
      → Free k (update_rows p f xs)
  unfolding first_row update_rows
  Free-moved p f k [] moved e = e
  Free-moved p f k (x ∷ xs) moved e = ground (arith, e, moved x, Free-moved p f k xs moved)

  pub Distinct-append :
      (xs : List A) (x : A) → Distinct xs → Free (key x) xs → Distinct (xs ++ (x ∷ []))
  unfolding first_row
  Distinct-append [] x h free = (refl, tt)
  Distinct-append (y ∷ xs) x h free = (
    ground (
      arith,
      h.0,
      free,
      first_row-append key (key y) xs x,
      text_eq_iff (key x) (key y),
      text_eq_iff (key y) (key x),
    ),
    Distinct-append xs x h.1 (ground (arith, free)),
  )

  pub Distinct-keep : (p : A → Bool) (xs : List A) → Distinct xs → Distinct (keep p xs)
  Distinct-keep p [] h = tt
  Distinct-keep p (x ∷ xs) h = elim (Bool-cases (p x)) [
    | inl kept ↦ rw kept (Free-keep p (key x) xs h.0, Distinct-keep p xs h.1)
    | inr gone ↦ rw gone (Distinct-keep p xs h.1)
  ]

  -- An update of rows that leaves their keys alone.
  pub Distinct-update_rows :
      (p : A → Bool) (f : A → A) (xs : List A)
      → ((x : A) → p x ≡ true → key (f x) ≡ key x)
      → Distinct xs
      → Distinct (update_rows p f xs)
  unfolding update_rows
  Distinct-update_rows p f [] same h = tt
  Distinct-update_rows p f (x ∷ xs) same h = elim (Bool-cases (p x)) [
    | inl hit ↦
        rw (hit, same x hit)
          (Free-update_rows p f (key x) xs same h.0, Distinct-update_rows p f xs same h.1)
    | inr miss ↦
        rw miss (Free-update_rows p f (key x) xs same h.0, Distinct-update_rows p f xs same h.1)
  ]

-- Rows with an id and a name, where the row of one id is replaced by one whose name no other row
-- has.
module _ {A : Type 0} (id name : A → Text) (i : Text) (replacement : A) where
  abbrev other_holds : A → Bool
  other_holds x = text_eq (name x) (name replacement) && not (is id i x)

  update_rows-Free : (xs : List A) → Free id i xs → update_rows (is id i) (λ x. replacement) xs ≡ xs
  unfolding first_row update_rows
  update_rows-Free [] e = refl
  update_rows-Free (x ∷ xs) e = ground (arith, e, update_rows-Free xs)

  Free-other_holds :
      (xs : List A)
      → Free id i xs
      → first_row other_holds xs ≡ none
      → Free name (name replacement) xs
  unfolding first_row
  Free-other_holds [] free e = refl
  Free-other_holds (x ∷ xs) free e = ground (arith, free, e, Free-other_holds xs)

  pub Distinct-renamed :
      (xs : List A)
      → Distinct id xs
      → Distinct name xs
      → first_row other_holds xs ≡ none
      → Distinct name (update_rows (is id i) (λ x. replacement) xs)
  unfolding first_row update_rows
  Distinct-renamed [] apart names e = tt
  Distinct-renamed (x ∷ xs) apart names e = elim (Bool-cases (is id i x)) [
    | inl hit ↦
        let alone : Free id i xs = ground (arith, hit, apart.0, text_eq_iff (id x) i) in
        let rest : first_row other_holds xs ≡ none = ground (arith, hit, e) in
        rw (hit, update_rows-Free xs alone) (Free-other_holds xs alone rest, names.1)
    | inr miss ↦
        let rest : first_row other_holds xs ≡ none = ground (arith, miss, e) in
        let differs : text_eq (name replacement) (name x) ≡ false = ground (
          arith,
          miss,
          e,
          text_eq_iff (name x) (name replacement),
          text_eq_iff (name replacement) (name x),
        ) in
        rw miss (
          Free-moved name (is id i) (λ y. replacement) (name x) xs (λ y h. differs) names.0,
          Distinct-renamed xs apart.1 names.1 rest,
        )
  ]
