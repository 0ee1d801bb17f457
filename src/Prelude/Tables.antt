-- ===== src/Prelude/Tables.antt =====
-- Tables as lists of rows: `SELECT SUM`, `UPDATE`, `DELETE` and access by a primary key.
use Prim.Native.Nat.{ℕ, ◌+◌}
use mathlib.Core.Bool.{Bool, true, false}
use mathlib.Core.Option.{Option, none, some}
use mathlib.Core.List.{List, [], ◌∷◌}
use plt_converter.Prelude.Tests.{◌==◌, if◌then◌else◌}

abbrev pub one_if : Bool → ℕ
one_if b = if b then 1 else 0

abbrev pub when : Bool → ℕ → ℕ
when b n = if b then n else 0

module _ {ℓ} {A : Type ℓ} where
  abbrev pub length : List A → ℕ
  length [] = 0
  length (x ∷ xs) = length xs + 1

  -- SELECT COALESCE(SUM(w), 0) FROM rows
  abbrev pub total : (A → ℕ) → List A → ℕ
  total w [] = 0
  total w (x ∷ xs) = w x + total w xs

  -- SELECT COUNT(*) FROM rows WHERE p
  abbrev pub count : (A → Bool) → List A → ℕ
  count p xs = total (λ x. one_if (p x)) xs

  -- SELECT COALESCE(SUM(w), 0) FROM rows WHERE p
  abbrev pub total_where : (A → Bool) → (A → ℕ) → List A → ℕ
  total_where p w xs = total (λ x. when (p x) (w x)) xs

  -- UPDATE rows SET f WHERE p
  abbrev pub update_where : (A → Bool) → (A → A) → List A → List A
  update_where p f [] = []
  update_where p f (x ∷ xs) = (if p x then f x else x) ∷ update_where p f xs

  -- DELETE FROM rows WHERE p
  abbrev pub delete_where : (A → Bool) → List A → List A
  delete_where p [] = []
  delete_where p (x ∷ xs) = let rest = delete_where p xs in if p x then rest else x ∷ rest

  -- SELECT * FROM rows WHERE p
  abbrev pub select_where : (A → Bool) → List A → List A
  select_where p [] = []
  select_where p (x ∷ xs) = let rest = select_where p xs in if p x then x ∷ rest else rest

  -- SELECT ... WHERE p, fetchone
  abbrev pub first_where : (A → Bool) → List A → Option A
  first_where p [] = none
  first_where p (x ∷ xs) = if p x then some x else first_where p xs

  abbrev pub exists_where : (A → Bool) → List A → Bool
  exists_where p [] = false
  exists_where p (x ∷ xs) = if p x then true else exists_where p xs

-- A statement `WHERE id=?` on the primary key meets one row at most.
module _ {ℓ} {A : Type ℓ} (key : A → ℕ) where
  abbrev pub find_row : ℕ → List A → Option A
  find_row k [] = none
  find_row k (x ∷ xs) = if key x == k then some x else find_row k xs

  abbrev pub update_row : ℕ → (A → A) → List A → List A
  update_row k f [] = []
  update_row k f (x ∷ xs) = if key x == k then f x ∷ xs else x ∷ update_row k f xs

  abbrev pub delete_row : ℕ → List A → List A
  delete_row k [] = []
  delete_row k (x ∷ xs) = if key x == k then xs else x ∷ delete_row k xs
