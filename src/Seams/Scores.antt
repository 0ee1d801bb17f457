-- ===== src/Seams/Scores.antt =====
-- _match_score, _layout_adjacencies and the score cache.
use plt_converter.Prelude.{
  ℕ, zero, suc, ◌+◌, ◌*◌, ◌≤◌, ◌<◌, ◌≡◌, ◌∙◌, ap, refl, sym, Bool, true, false, not, ◌&&◌, ◌||◌,
  Option, none, some, List, [], ◌∷◌, ◌++◌, ◌==◌, ltb, leb, if◌then◌else◌, Bool-cases, inl, inr,
  arith, All, length, ==→eq, Option-cases, subst,
}
pub mod Neighbours
use plt_converter.Seams.Arithmetic.{Arithmetic}

-- The sides that face each other: 'right' and 'left', or 'bottom' and 'top'.
pub data Facing : Type 0 where
  across down : Facing

abbrev pub same_facing : Facing → Facing → Bool
same_facing Facing.across Facing.across = true
same_facing Facing.down Facing.down = true
same_facing _ _ = false

-- The crossings of a page at each of its sides.
pub record Edges (F : Type 0) : Type 0 where
  pub left : List F
  pub right : List F
  pub top : List F
  pub bottom : List F

abbrev pub first_side : {F : Type 0} → Facing → Edges F → List F
first_side Facing.across e = e.right
first_side Facing.down e = e.bottom

abbrev pub second_side : {F : Type 0} → Facing → Edges F → List F
second_side Facing.across e = e.left
second_side Facing.down e = e.top

pub data Order : Type 0 where
  by_row by_column : Order

abbrev pub is_by_column : Order → Bool
is_by_column Order.by_row = false
is_by_column Order.by_column = true

-- The place of a cell in the list of slots.
abbrev pub slot_index : ℕ → ℕ → Order → ℕ → ℕ → ℕ
slot_index rows columns order row column =
    if is_by_column order then column * rows + row else row * columns + column

pub record Seam : Type 0 where
  pub first : ℕ
  pub second : ℕ
  pub facing : Facing

-- The seam to the next column, and the one to the next row, of one cell.
abbrev pub seam_across : ℕ → ℕ → Order → ℕ → ℕ → List Seam
seam_across rows columns order row column =
    let index = slot_index rows columns order row column in
    if ltb (column + 1) columns
    then record {
      first = index;
      second = index + (if is_by_column order then rows else 1);
      facing = Facing.across;
    }
      ∷ []
    else []

abbrev pub seam_down : ℕ → ℕ → Order → ℕ → ℕ → List Seam
seam_down rows columns order row column =
    let index = slot_index rows columns order row column in
    if ltb (row + 1) rows
    then record {
      first = index;
      second = index + (if is_by_column order then 1 else columns);
      facing = Facing.down;
    }
      ∷ []
    else []

abbrev pub seams_of_cell : ℕ → ℕ → Order → ℕ → ℕ → List Seam
seams_of_cell rows columns order row column =
    seam_across rows columns order row column ++ seam_down rows columns order row column

-- The cells of a row from `column` on, `k` of them.
abbrev pub seams_of_row : ℕ → ℕ → Order → ℕ → ℕ → ℕ → List Seam
seams_of_row rows columns order row zero column = []
seams_of_row rows columns order row (suc k) column =
    seams_of_cell rows columns order row column
    ++ seams_of_row rows columns order row k (column + 1)

abbrev pub seams_of_rows : ℕ → ℕ → Order → ℕ → ℕ → List Seam
seams_of_rows rows columns order zero row = []
seams_of_rows rows columns order (suc k) row =
    seams_of_row rows columns order row columns 0 ++ seams_of_rows rows columns order k (row + 1)

-- _layout_adjacencies
unfoldable pub layout_adjacencies : ℕ → ℕ → Order → List Seam
layout_adjacencies rows columns order = seams_of_rows rows columns order rows 0

module _ {F : Type 0} (a : Arithmetic F) where
  -- MATCH_TOLERANCE_PT
  abbrev pub match_tolerance : F
  match_tolerance = a.decimal 20 1

  -- `abs(delta) <= MATCH_TOLERANCE_PT`
  abbrev pub is_close : F → F → Bool
  is_close x y = not (a.less match_tolerance (a.magnitude (a.sub x y)))

  -- `delta < 0`
  abbrev pub is_before : F → F → Bool
  is_before x y = a.less (a.sub x y) (a.of_nat 0)

  -- The loop of _match_score, with `rest` for the first list behind x.
  abbrev pub match_from : (List F → ℕ) → F → List F → ℕ
  match_from rest x [] = 0
  match_from rest x (y ∷ ys) =
      let skipped = match_from rest x ys in
      if is_close x y then rest ys + 1 else if is_before x y then rest (y ∷ ys) else skipped

  abbrev pub count_matches : List F → List F → ℕ
  count_matches [] ys = 0
  count_matches (x ∷ xs) ys = match_from (count_matches xs) x ys

  abbrev pub is_empty : List F → Bool
  is_empty [] = true
  is_empty (x ∷ xs) = false

  -- _match_score
  unfoldable pub match_score : List F → List F → Option F
  match_score xs ys =
      if is_empty xs && is_empty ys
      then none
      else if is_empty xs || is_empty ys
      then some (a.of_nat 0)
      else some (a.div (a.of_nat (2 * count_matches xs ys)) (a.of_nat (length xs + length ys)))

  -- `signatures[page][side]`
  unfoldable pub side_score : (ℕ → Edges F) → ℕ → ℕ → Facing → Option F
  unfolding match_score
  side_score signatures p q f =
      match_score (first_side f (signatures p)) (second_side f (signatures q))

  -- No crossing is matched twice: there are at most as many matches as crossings on either side.
  match_from-le :
      (rest : List F → ℕ) (n : ℕ)
      → ((ys : List F) → (rest ys ≤ n) × (rest ys ≤ length ys))
      → (x : F) (ys : List F) → (match_from rest x ys ≤ n + 1) × (match_from rest x ys ≤ length ys)
  match_from-le rest n h x [] = (omega arith, omega arith)
  match_from-le rest n h x (y ∷ ys) =
      let later = match_from-le rest n h x ys in
      let here = h ys in
      let again = h (y ∷ ys) in
      elim (Bool-cases (is_close x y)) [
        | inl close ↦ rw close (omega (arith, here), omega (arith, here))
        | inr apart ↦ elim (Bool-cases (is_before x y)) [
          | inl before ↦ rw (apart, before) (omega (arith, again), omega (arith, again))
          | inr behind ↦ rw (apart, behind) (later.0, omega (arith, later))
        ]
      ]

  -- The crossings of two facing sides are matched one to one: there are no more matches than crossings
  -- on either side, whatever the numbers are.
  pub count_matches-le :
      (xs ys : List F) → (count_matches xs ys ≤ length xs) × (count_matches xs ys ≤ length ys)
  count_matches-le [] ys = (omega arith, omega arith)
  count_matches-le (x ∷ xs) ys =
      match_from-le (count_matches xs) (length xs) (count_matches-le xs) x ys
