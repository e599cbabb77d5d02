-- ===== src/Reports/Grouped/Sums.antt =====
-- Sums over groups, which add up to the sums over their rows, and over sorted lists.
use zaman.Base.{ℕ, ◌+◌, ◌≡◌, refl, ap, ◌∙◌, Bool, List, [], ◌∷◌, map, arith}
use zaman.Reports.Grouped.{add_to_group, group_by, insert_by, order_by}

unfoldable pub sum_by {ℓ} : {A : Type ℓ} → (A → ℕ) → List A → ℕ
sum_by f [] = 0
sum_by f (x ∷ xs) = f x + sum_by f xs

module _ {ℓ} {A : Type ℓ} (f : A → ℕ) where
  sum_by-insert_by :
      (before : A → A → Bool) (x : A) (ys : List A)
      → sum_by f (insert_by before x ys) ≡ f x + sum_by f ys
  unfolding sum_by insert_by
  sum_by-insert_by before x [] = refl
  sum_by-insert_by before x (y ∷ ys) = ground (arith, sum_by-insert_by before x ys)

  pub sum_by-order_by :
      (before : A → A → Bool) (xs : List A) → sum_by f (order_by before xs) ≡ sum_by f xs
  unfolding sum_by order_by
  sum_by-order_by before [] = refl
  sum_by-order_by before (x ∷ xs) =
      sum_by-insert_by before x (order_by before xs) ∙ ap (λ n. f x + n) (sum_by-order_by before xs)

  pub sum_by-map :
      {B : Type 0} (h : B → A) (xs : List B) → sum_by f (map h xs) ≡ sum_by (λ x. f (h x)) xs
  unfolding sum_by
  sum_by-map h [] = refl
  sum_by-map h (x ∷ xs) = ap (λ n. f (h x) + n) (sum_by-map h xs)

-- A figure of a list that each row adds to.
module _ {ℓ} {K : Type 0} {A : Type ℓ} (figure : List A → ℕ) (weight : A → ℕ)
    (none_yet : figure [] ≡ 0)
    (adds : (row : A) (rows : List A) → figure (row ∷ rows) ≡ weight row + figure rows)
    (same : K → K → Bool) where
  sum_by-add_to_group :
      (key : K) (row : A) (groups : List (K × List A))
      → sum_by (λ g. figure g.1) (add_to_group same key row groups)
        ≡ weight row + sum_by (λ g. figure g.1) groups
  unfolding sum_by add_to_group
  sum_by-add_to_group key row [] = ground (arith, none_yet, adds row [])
  sum_by-add_to_group key row ((other, rows) ∷ groups) =
      ground (arith, adds row rows, sum_by-add_to_group key row groups)

  pub sum_by-group_by :
      (key : A → K) (rows : List A)
      → sum_by (λ g. figure g.1) (group_by same key rows) ≡ figure rows
  unfolding sum_by group_by
  sum_by-group_by key [] = ground (arith, none_yet)
  sum_by-group_by key (row ∷ rows) = ground (
    arith,
    adds row rows,
    sum_by-add_to_group (key row) row (group_by same key rows),
    sum_by-group_by key rows,
  )
