-- ===== src/Prelude/Keys.antt =====
-- Tables whose rows have different keys, as under PRIMARY KEY, and what keeps them so.
use Prim.Native.Nat.{ℕ}
use mathlib.Core.Path.{◌≡◌, refl}
use mathlib.Core.Bool.{Bool, false}
use mathlib.Core.List.{List, [], ◌∷◌, ◌++◌}
use native.Mathlib.Omega.{arith}
use plt_converter.Prelude.Tests.{◌==◌}
use plt_converter.Prelude.Tables.{update_where, delete_where, update_row, delete_row, exists_where}

module _ {ℓ} {A : Type ℓ} (key : A → ℕ) where
  -- `k in (key of each row)`
  abbrev pub has_key : ℕ → List A → Bool
  has_key k xs = exists_where (λ x. key x == k) xs

  abbrev pub Distinct : List A → Type 0
  Distinct [] = Unit
  Distinct (x ∷ xs) = (has_key (key x) xs ≡ false) × Distinct xs

  has_key-update_where :
      (k : ℕ) (p : A → Bool) (f : A → A)
      → ((x : A) → key (f x) ≡ key x)
      → (xs : List A) → has_key k (update_where p f xs) ≡ has_key k xs
  has_key-update_where k p f h [] = refl
  has_key-update_where k p f h (x ∷ xs) = ground (arith, h x, has_key-update_where k p f h xs)

  pub update_where-Distinct :
      (p : A → Bool) (f : A → A)
      → ((x : A) → key (f x) ≡ key x)
      → (xs : List A) → Distinct xs
      → Distinct (update_where p f xs)
  update_where-Distinct p f h [] d = tt
  update_where-Distinct p f h (x ∷ xs) d =
      ground (arith, h x, has_key-update_where (key x) p f h xs, update_where-Distinct p f h xs d.1)

  has_key-update_row :
      (k j : ℕ) (f : A → A)
      → ((x : A) → key (f x) ≡ key x)
      → (xs : List A) → has_key k (update_row key j f xs) ≡ has_key k xs
  has_key-update_row k j f h [] = refl
  has_key-update_row k j f h (x ∷ xs) = ground (arith, h x, has_key-update_row k j f h xs)

  pub update_row-Distinct :
      (j : ℕ) (f : A → A)
      → ((x : A) → key (f x) ≡ key x)
      → (xs : List A) → Distinct xs
      → Distinct (update_row key j f xs)
  update_row-Distinct j f h [] d = tt
  update_row-Distinct j f h (x ∷ xs) d =
      ground (arith, h x, has_key-update_row (key x) j f h xs, update_row-Distinct j f h xs d.1)

  has_key-delete_where :
      (k : ℕ) (p : A → Bool) (xs : List A)
      → has_key k xs ≡ false
      → has_key k (delete_where p xs) ≡ false
  has_key-delete_where k p [] h = refl
  has_key-delete_where k p (x ∷ xs) h = ground (arith, has_key-delete_where k p xs)

  pub delete_where-Distinct :
      (p : A → Bool) (xs : List A) → Distinct xs → Distinct (delete_where p xs)
  delete_where-Distinct p [] d = tt
  delete_where-Distinct p (x ∷ xs) d =
      ground (arith, has_key-delete_where (key x) p xs d.0, delete_where-Distinct p xs d.1)

  has_key-delete_row :
      (k j : ℕ) (xs : List A) → has_key k xs ≡ false → has_key k (delete_row key j xs) ≡ false
  has_key-delete_row k j [] h = refl
  has_key-delete_row k j (x ∷ xs) h = ground (arith, has_key-delete_row k j xs)

  pub delete_row-Distinct : (j : ℕ) (xs : List A) → Distinct xs → Distinct (delete_row key j xs)
  delete_row-Distinct j [] d = tt
  delete_row-Distinct j (x ∷ xs) d =
      ground (arith, has_key-delete_row (key x) j xs d.0, delete_row-Distinct j xs d.1)

  has_key-snoc :
      (k : ℕ) (xs : List A) (y : A)
      → has_key k xs ≡ false
      → (key y == k) ≡ false
      → has_key k (xs ++ y ∷ []) ≡ false
  has_key-snoc k [] y h n = rw n
  has_key-snoc k (x ∷ xs) y h n = ground (arith, has_key-snoc k xs y)

  pub snoc-Distinct :
      (xs : List A) (y : A) → has_key (key y) xs ≡ false → Distinct xs → Distinct (xs ++ y ∷ [])
  snoc-Distinct [] y h d = (refl, tt)
  snoc-Distinct (x ∷ xs) y h d = ground (arith, has_key-snoc (key x) xs y d.0, snoc-Distinct xs y)
