-- ===== src/Storage.antt =====
-- src/repositories: the queries of the repositories over the tables of the database. A table is the
-- list of its rows in the order of insertion. The SQL of the queries is read as functions on these
-- lists; rows that `ORDER BY` leaves tied stay in the order of insertion, which PostgreSQL may
-- change. Ids, checksums and times that the database or the random source make are arguments. The
-- writes of Routes and Policies are those that no constraint stops; Constraints has the whole.
pub mod Routes
pub mod Policies
pub mod Versions
pub mod Order
pub mod Rows
pub mod Plain
pub mod Constraints
pub mod Keys
pub mod Keyed
mod Tests
use ts_api_gateway.Common.{if◌then◌else◌, Bool, Option, none, some, List, [], ◌∷◌}
use ts_api_gateway.Models.{Route, Policy, ConfigVersion}

pub record Tables : Type 0 where
  pub routes : List Route
  pub policies : List Policy
  pub versions : List ConfigVersion

module _ {ℓ} {A : Type ℓ} where
  -- `ORDER BY`: `precedes a b` is whether `a` may stand before `b`.
  unfoldable pub insert_row : (A → A → Bool) → A → List A → List A
  insert_row precedes x [] = x ∷ []
  insert_row precedes x (y ∷ ys) =
      if precedes x y then x ∷ (y ∷ ys) else y ∷ insert_row precedes x ys

  unfoldable pub order_by : (A → A → Bool) → List A → List A
  order_by precedes [] = []
  order_by precedes (x ∷ xs) = insert_row precedes x (order_by precedes xs)

  -- `rows[0]` of a query with a condition.
  unfoldable pub first_row : (A → Bool) → List A → Option A
  first_row p [] = none
  first_row p (x ∷ xs) = if p x then some x else first_row p xs

  -- `UPDATE ... WHERE`
  unfoldable pub update_rows : (A → Bool) → (A → A) → List A → List A
  update_rows p f [] = []
  update_rows p f (x ∷ xs) = (if p x then f x else x) ∷ update_rows p f xs
