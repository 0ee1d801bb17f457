-- ===== src/Prelude/Totals.antt =====
-- How a sum over a table changes when rows are inserted, updated or deleted.
use Prim.Native.Nat.{ℕ, ◌+◌, ◌≤◌}
use mathlib.Core.Path.{◌≡◌}
use mathlib.Core.Bool.{Bool}
use mathlib.Core.Option.{some}
use mathlib.Core.List.{List, [], ◌∷◌, ◌++◌}
use native.Mathlib.Omega.{arith}
use plt_converter.Prelude.Tables.{
  total, update_where, delete_where, find_row, update_row, delete_row,
}

module _ {ℓ} {A : Type ℓ} (w : A → ℕ) where
  pub total-append : (xs ys : List A) → total w (xs ++ ys) ≡ total w xs + total w ys
  total-append [] ys = omega arith
  total-append (x ∷ xs) ys = omega (arith, total-append xs ys)

  pub total-snoc : (xs : List A) (x : A) → total w (xs ++ x ∷ []) ≡ total w xs + w x
  total-snoc xs x = omega (arith, total-append xs (x ∷ []))

  pub total-delete_where-le :
      (p : A → Bool) (xs : List A) → total w (delete_where p xs) ≤ total w xs
  total-delete_where-le p [] = omega arith
  total-delete_where-le p (x ∷ xs) = ground (arith, total-delete_where-le p xs)

  pub total-update_where-le :
      (p : A → Bool) (f : A → A)
      → ((x : A) → w (f x) ≤ w x)
      → (xs : List A) → total w (update_where p f xs) ≤ total w xs
  total-update_where-le p f h [] = omega arith
  total-update_where-le p f h (x ∷ xs) = ground (arith, h x, total-update_where-le p f h xs)

module _ {ℓ} {A : Type ℓ} (key : A → ℕ) (w : A → ℕ) where
  pub total-update_row-le :
      (k : ℕ) (f : A → A)
      → ((x : A) → w (f x) ≤ w x)
      → (xs : List A) → total w (update_row key k f xs) ≤ total w xs
  total-update_row-le k f h [] = omega arith
  total-update_row-le k f h (x ∷ xs) = ground (arith, h x, total-update_row-le k f h xs)

  pub total-update_row :
      (k : ℕ) (f : A → A) (xs : List A) (x : A)
      → find_row key k xs ≡ some x
      → total w (update_row key k f xs) + w x ≡ total w xs + w (f x)
  total-update_row k f [] x e = cc
  total-update_row k f (y ∷ xs) x e = ground (arith, total-update_row k f xs x)

  pub total-delete_row-le : (k : ℕ) (xs : List A) → total w (delete_row key k xs) ≤ total w xs
  total-delete_row-le k [] = omega arith
  total-delete_row-le k (x ∷ xs) = ground (arith, total-delete_row-le k xs)
