-- ===== src/Seams/Scores/Neighbours.antt =====
-- The pairs that _layout_adjacencies lists are the neighbours of the grid.
use plt_converter.Prelude.{
  ℕ, zero, suc, ◌+◌, ◌≤◌, ◌<◌, ◌≡◌, refl, Bool, true, ◌&&◌, List, [], ◌∷◌, ◌++◌, ◌==◌, ltb,
  if◌then◌else◌, Bool-cases, inl, inr, arith, All, All-append, exists_where, dec_lt, ==_refl,
}
use plt_converter.Seams.Scores.{
  Facing, same_facing, Order, is_by_column, slot_index, Seam, seam_across, seam_down, seams_of_cell,
  seams_of_row, seams_of_rows, layout_adjacencies,
}

abbrev pub next_row : Facing → ℕ → ℕ
next_row Facing.across row = row
next_row Facing.down row = row + 1

abbrev pub next_column : Facing → ℕ → ℕ
next_column Facing.across column = column + 1
next_column Facing.down column = column

abbrev pub is_seam : ℕ → ℕ → Facing → Seam → Bool
is_seam p q f s = (s.first == p) && (s.second == q) && same_facing s.facing f

-- The slots at both sides of a seam belong to neighbouring cells of the grid.
pub record IsNeighbour (rows columns : ℕ) (order : Order) (s : Seam) : Type 0 where
  pub row : ℕ
  pub column : ℕ
  pub row_inside : next_row s.facing row < rows
  pub column_inside : next_column s.facing column < columns
  pub first : s.first ≡ slot_index rows columns order row column
  pub second :
      s.second ≡ slot_index rows columns order (next_row s.facing row) (next_column s.facing column)

exists_left {ℓ} :
    {A : Type ℓ} (p : A → Bool) (xs ys : List A)
    → exists_where p xs ≡ true
    → exists_where p (xs ++ ys) ≡ true
exists_left p [] ys h = absurd (ground arith)
exists_left p (x ∷ xs) ys h = ground (arith, exists_left p xs ys)

exists_right {ℓ} :
    {A : Type ℓ} (p : A → Bool) (xs ys : List A)
    → exists_where p ys ≡ true
    → exists_where p (xs ++ ys) ≡ true
exists_right p [] ys h = h
exists_right p (x ∷ xs) ys h = ground (arith, exists_right p xs ys h)

module _ (rows columns : ℕ) (order : Order) where
  -- A step to the next column or row, in the slots of either order.
  step_across :
      (row column : ℕ)
      → slot_index rows columns order row column + (if is_by_column order then rows else 1)
        ≡ slot_index rows columns order row (column + 1)
  step_across row column = by_order order
    where
      by_order :
          (o : Order)
          → slot_index rows columns o row column + (if is_by_column o then rows else 1)
            ≡ slot_index rows columns o row (column + 1)
      by_order Order.by_row = omega arith
      by_order Order.by_column = omega arith

  step_down :
      (row column : ℕ)
      → slot_index rows columns order row column + (if is_by_column order then 1 else columns)
        ≡ slot_index rows columns order (row + 1) column
  step_down row column = by_order order
    where
      by_order :
          (o : Order)
          → slot_index rows columns o row column + (if is_by_column o then 1 else columns)
            ≡ slot_index rows columns o (row + 1) column
      by_order Order.by_row = omega arith
      by_order Order.by_column = omega arith

  across-All :
      (row column : ℕ)
      → row < rows
      → All (IsNeighbour rows columns order) (seam_across rows columns order row column)
  across-All row column h = elim (Bool-cases (ltb (column + 1) columns)) [
    | inr last ↦ rw last tt
    | inl inner ↦ rw inner (
      record {
        row = row;
        column = column;
        row_inside = h;
        column_inside = ground arith;
        first = refl;
        second = step_across row column;
      },
      tt,
    )
  ]

  down-All :
      (row column : ℕ)
      → column < columns
      → All (IsNeighbour rows columns order) (seam_down rows columns order row column)
  down-All row column h = elim (Bool-cases (ltb (row + 1) rows)) [
    | inr last ↦ rw last tt
    | inl inner ↦ rw inner (
      record {
        row = row;
        column = column;
        row_inside = ground arith;
        column_inside = h;
        first = refl;
        second = step_down row column;
      },
      tt,
    )
  ]

  row-All :
      (row k column : ℕ)
      → row < rows
      → column + k ≤ columns
      → All (IsNeighbour rows columns order) (seams_of_row rows columns order row k column)
  row-All row zero column h b = tt
  row-All row (suc k) column h b =
      All-append (IsNeighbour rows columns order) (seams_of_cell rows columns order row column)
        (seams_of_row rows columns order row k (column + 1))
        (All-append (IsNeighbour rows columns order) (seam_across rows columns order row column)
          (seam_down rows columns order row column) (across-All row column h)
          (down-All row column (omega arith)))
        (row-All row k (column + 1) h (omega arith))

  rows-All :
      (k row : ℕ)
      → row + k ≤ rows
      → All (IsNeighbour rows columns order) (seams_of_rows rows columns order k row)
  rows-All zero row b = tt
  rows-All (suc k) row b =
      All-append (IsNeighbour rows columns order) (seams_of_row rows columns order row columns 0)
        (seams_of_rows rows columns order k (row + 1))
        (row-All row columns 0 (omega arith) (omega arith)) (rows-All k (row + 1) (omega arith))

  in_cell :
      (f : Facing) (row column : ℕ)
      → next_row f row < rows
      → next_column f column < columns
      → exists_where
          (is_seam
            (slot_index rows columns order row column)
            (slot_index rows columns order (next_row f row) (next_column f column))
            f)
          (seams_of_cell rows columns order row column)
        ≡ true
  in_cell Facing.across row column hr hc =
      let last : ltb (column + 1) columns ≡ true = ground arith in
      rw (last, step_across row column)
        (simp
          (
            ==_refl (slot_index rows columns order row column),
            ==_refl (slot_index rows columns order row (column + 1)),
          )
          refl)
  in_cell Facing.down row column hr hc =
      let last : ltb (row + 1) rows ≡ true = ground arith in
      exists_right
        (is_seam (slot_index rows columns order row column)
          (slot_index rows columns order (row + 1) column) Facing.down)
        (seam_across rows columns order row column) (seam_down rows columns order row column)
        (rw (last, step_down row column)
          (simp
            (
              ==_refl (slot_index rows columns order row column),
              ==_refl (slot_index rows columns order (row + 1) column),
            )
            refl))

  module _ (f : Facing) (row column : ℕ) where
    abbrev is_here : Seam → Bool
    is_here =
        is_seam (slot_index rows columns order row column)
          (slot_index rows columns order (next_row f row) (next_column f column)) f

    in_row :
        (k c : ℕ)
        → c ≤ column
        → column < c + k
        → next_row f row < rows
        → next_column f column < columns
        → exists_where is_here (seams_of_row rows columns order row k c) ≡ true
    in_row zero c lo hi hr hc = absurd (omega arith)
    in_row (suc k) c lo hi hr hc = elim (dec_lt c column) [
      | yes later ↦
          exists_right is_here (seams_of_cell rows columns order row c)
            (seams_of_row rows columns order row k (c + 1))
            (in_row k (c + 1) (omega arith) (omega arith) hr hc)
      | no reached ↦
          let e : c ≡ column = omega arith in
          rw e (
            exists_left is_here (seams_of_cell rows columns order row column)
              (seams_of_row rows columns order row k (column + 1)) (in_cell f row column hr hc))
    ]

    in_rows :
        (k r : ℕ)
        → r ≤ row
        → row < r + k
        → column < columns
        → next_row f row < rows
        → next_column f column < columns
        → exists_where is_here (seams_of_rows rows columns order k r) ≡ true
    in_rows zero r lo hi hc0 hr hc = absurd (omega arith)
    in_rows (suc k) r lo hi hc0 hr hc = elim (dec_lt r row) [
      | yes later ↦
          exists_right is_here (seams_of_row rows columns order r columns 0)
            (seams_of_rows rows columns order k (r + 1))
            (in_rows k (r + 1) (omega arith) (omega arith) hc0 hr hc)
      | no reached ↦
          let e : r ≡ row = omega arith in
          rw e (
            exists_left is_here (seams_of_row rows columns order row columns 0)
              (seams_of_rows rows columns order k (row + 1))
              (in_row columns 0 (omega arith) (omega arith) hr hc))
    ]

  -- The seams that are scored are those of the grid, in either order of its slots: each of them lies
  -- between a cell and the next one of its row or its column, and each such pair of cells is among them,
  -- with its facing sides.
  pub layout_adjacencies-exact :
      All (IsNeighbour rows columns order) (layout_adjacencies rows columns order)
      × ((f : Facing) (row column : ℕ)
          → row < rows
          → column < columns
          → next_row f row < rows
          → next_column f column < columns
          → exists_where
              (is_seam
                (slot_index rows columns order row column)
                (slot_index rows columns order (next_row f row) (next_column f column))
                f)
              (layout_adjacencies rows columns order)
            ≡ true)
  unfolding layout_adjacencies
  layout_adjacencies-exact = (
    rows-All rows 0 (omega arith),
    λ f row column hr hc nr nc. in_rows f row column rows 0 (omega arith) (omega arith) hc nr nc,
  )
