-- ===== src/Sort.antt =====
-- `sort_by_key` with a text key, which is stable, and `dedup`, as `Vec` has them.
pub mod Laws
pub mod Orders
use pi_tools.Common.{true, false, List, [], ◌∷◌, if◌then◌else◌}
use pi_tools.Text.{Text, text_eq, text_lt}

module _ {A : Type 0} (key : A → Text) where
  unfoldable pub insert_by : A → List A → List A
  insert_by x [] = x ∷ []
  insert_by x (y ∷ ys) = if text_lt (key y) (key x) then y ∷ insert_by x ys else x ∷ y ∷ ys

  unfoldable pub sort_by : List A → List A
  unfolding insert_by
  sort_by [] = []
  sort_by (x ∷ xs) = insert_by x (sort_by xs)

  -- The items after `x`, which stays: each that repeats the one before it goes.
  unfoldable pub dedup_from : A → List A → List A
  dedup_from x [] = x ∷ []
  dedup_from x (y ∷ ys) = elim (text_eq (key x) (key y)) [
    | true ↦ dedup_from x ys
    | false ↦ x ∷ dedup_from y ys
  ]

  unfoldable pub dedup : List A → List A
  unfolding dedup_from
  dedup [] = []
  dedup (x ∷ xs) = dedup_from x xs
