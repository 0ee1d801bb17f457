-- ===== src/Prelude/Holds.antt =====
-- A statement about every row of a table.
use Prim.Native.Nat.{ℕ}
use mathlib.Core.Path.{◌≡◌, sym, subst}
use mathlib.Core.Logic.{inl, inr}
use mathlib.Core.Bool.{Bool}
use mathlib.Core.Option.{some}
use mathlib.Core.List.{List, [], ◌∷◌, ◌++◌}
use native.Mathlib.Omega.{arith}
use plt_converter.Prelude.Tests.{◌==◌, Bool-cases}
use plt_converter.Prelude.Tables.{update_where, find_row, update_row, delete_row}

abbrev pub All {ℓ κ} : {A : Type ℓ} → (A → Type κ) → List A → Type κ
All P [] = Unit
All P (x ∷ xs) = P x × All P xs

module _ {ℓ κ} {A : Type ℓ} (P : A → Type κ) where
  pub All-snoc : (xs : List A) (y : A) → All P xs → P y → All P (xs ++ y ∷ [])
  All-snoc [] y h p = (p, tt)
  All-snoc (x ∷ xs) y h p = (h.0, All-snoc xs y h.1 p)

  pub All-append : (xs ys : List A) → All P xs → All P ys → All P (xs ++ ys)
  All-append [] ys h k = k
  All-append (x ∷ xs) ys h k = (h.0, All-append xs ys h.1 k)

  pub All-update_where :
      (p : A → Bool) (f : A → A)
      → ((x : A) → P x → P (f x))
      → (xs : List A) → All P xs
      → All P (update_where p f xs)
  All-update_where p f k [] h = tt
  All-update_where p f k (x ∷ xs) h = ground (arith, k x h.0, All-update_where p f k xs h.1)

  module _ (key : A → ℕ) where
    pub All-update_row :
        (j : ℕ) (f : A → A)
        → ((x : A) → P x → P (f x))
        → (xs : List A) → All P xs
        → All P (update_row key j f xs)
    All-update_row j f k [] h = tt
    All-update_row j f k (x ∷ xs) h = ground (arith, k x h.0, All-update_row j f k xs h.1)

    pub All-delete_row : (j : ℕ) (xs : List A) → All P xs → All P (delete_row key j xs)
    All-delete_row j [] h = tt
    All-delete_row j (x ∷ xs) h = ground (arith, All-delete_row j xs h.1)

    pub All-find_row : (j : ℕ) (xs : List A) (x : A) → All P xs → find_row key j xs ≡ some x → P x
    All-find_row j [] x h e = cc
    All-find_row j (y ∷ xs) x h e = elim (Bool-cases (key y == j)) [
      | inl found ↦ let q : y ≡ x = ground arith in subst P q h.0
      | inr other ↦ All-find_row j xs x h.1 (rw other at e)
    ]

    pub All-update_found :
        (j : ℕ) (f : A → A) (xs : List A) (x : A)
        → find_row key j xs ≡ some x
        → P (f x)
        → All P xs
        → All P (update_row key j f xs)
    All-update_found j f [] x e p h = tt
    All-update_found j f (y ∷ xs) x e p h = elim (Bool-cases (key y == j)) [
      | inl found ↦ let q : y ≡ x = ground arith in rw found (subst (λ z. P (f z)) (sym q) p, h.1)
      | inr other ↦ rw other (h.0, All-update_found j f xs x (rw other at e) p h.1)
    ]

-- The row found under a key has that key.
pub find_row-key {ℓ} :
    {A : Type ℓ} (key : A → ℕ) (k : ℕ) (xs : List A) (x : A)
    → find_row key k xs ≡ some x
    → key x ≡ k
find_row-key key k [] x e = absurd (ground arith)
find_row-key key k (y ∷ xs) x e = ground (arith, find_row-key key k xs x)
