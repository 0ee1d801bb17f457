-- ===== src/Seams/Tests.antt =====
-- Thousandths in place of floating-point numbers, and pages with a few crossings.
use plt_converter.Prelude.{
  ℕ, ◌+◌, ◌-◌, ◌*◌, ◌/◌, ◌^◌, ◌≡◌, Bool, true, false, some, [], ◌∷◌, ◌==◌, ltb, leb, if◌then◌else◌,
  All, exists_where, ◌≤◌, ◌<◌, arith,
}
use plt_converter.Seams.Arithmetic.{Arithmetic}
use plt_converter.Seams.Grids.{Grid, candidate_grids, IsCandidate, has_grid, candidate_grids-exact}
use plt_converter.Seams.Scores.{
  Facing, Edges, Order, slot_index, layout_adjacencies, count_matches, count_matches-le,
}
use plt_converter.Seams.Scores.Neighbours.{
  IsNeighbour, is_seam, next_row, next_column, layout_adjacencies-exact,
}
use plt_converter.Seams.Evaluation.{evaluate, evaluate_cached}
use plt_converter.Seams.Evaluation.Cache.{IsTrueCache, evaluate_cached-eq-evaluate}
use plt_converter.Seams.Choice.{Suggestion, choose_best}
use plt_converter.Seams.Choice.Complete.{IsSound, choose_best-IsSound}
use plt_converter.Seams.Choice.Answers.{choose_best-answers}

pub data Fixed : Type 0 where
  plus minus : ℕ → Fixed

abbrev pub difference : ℕ → ℕ → Fixed
difference m n = if leb n m then Fixed.plus (m - n) else Fixed.minus (n - m)

abbrev pub add : Fixed → Fixed → Fixed
add (Fixed.plus m) (Fixed.plus n) = Fixed.plus (m + n)
add (Fixed.plus m) (Fixed.minus n) = difference m n
add (Fixed.minus m) (Fixed.plus n) = difference n m
add (Fixed.minus m) (Fixed.minus n) = Fixed.minus (m + n)

abbrev pub negate : Fixed → Fixed
negate (Fixed.plus n) = Fixed.minus n
negate (Fixed.minus n) = Fixed.plus n

abbrev pub magnitude : Fixed → Fixed
magnitude (Fixed.plus n) = Fixed.plus n
magnitude (Fixed.minus n) = Fixed.plus n

abbrev pub mul : Fixed → Fixed → Fixed
mul (Fixed.plus m) (Fixed.plus n) = Fixed.plus (m * n / 1000)
mul (Fixed.plus m) (Fixed.minus n) = Fixed.minus (m * n / 1000)
mul (Fixed.minus m) (Fixed.plus n) = Fixed.minus (m * n / 1000)
mul (Fixed.minus m) (Fixed.minus n) = Fixed.plus (m * n / 1000)

abbrev pub div : Fixed → Fixed → Fixed
div (Fixed.plus m) (Fixed.plus n) = Fixed.plus (m * 1000 / n)
div (Fixed.plus m) (Fixed.minus n) = Fixed.minus (m * 1000 / n)
div (Fixed.minus m) (Fixed.plus n) = Fixed.minus (m * 1000 / n)
div (Fixed.minus m) (Fixed.minus n) = Fixed.plus (m * 1000 / n)

abbrev pub is_less : Fixed → Fixed → Bool
is_less x y = elim (add x (negate y)) [ Fixed.plus n ↦ false | Fixed.minus n ↦ ltb 0 n ]

abbrev pub is_zero : Fixed → Bool
is_zero (Fixed.plus n) = n == 0
is_zero (Fixed.minus n) = n == 0

abbrev pub fixed : Arithmetic Fixed
fixed = record {
  of_nat = λ n. Fixed.plus (n * 1000);
  decimal = λ m k. Fixed.plus (m * 1000 / 10 ^ k);
  add = add;
  sub = λ x y. add x (negate y);
  mul = mul;
  div = div;
  magnitude = magnitude;
  round4 = λ x. x;
  less = is_less;
  same = λ x y. is_zero (add x (negate y));
}

abbrev pub edges : Edges Fixed
edges = record {
  left = Fixed.plus 5000 ∷ Fixed.plus 9000 ∷ [];
  right = Fixed.plus 5000 ∷ Fixed.plus 8000 ∷ [];
  top = [];
  bottom = Fixed.plus 100 ∷ [];
}

abbrev pub signatures : ℕ → Edges Fixed
signatures p = edges

abbrev two_by_two : Grid
two_by_two = record { rows = 2; columns = 2 }

tried_run :
    All (IsCandidate 3 1) (candidate_grids 3 1)
    × ((g : Grid) → IsCandidate 3 1 g → has_grid g.rows g.columns (candidate_grids 3 1) ≡ true)
tried_run = candidate_grids-exact 3 1

adjacent_run :
    All (IsNeighbour 2 3 Order.by_column) (layout_adjacencies 2 3 Order.by_column)
    × ((f : Facing) (row column : ℕ)
        → row < 2
        → column < 3
        → next_row f row < 2
        → next_column f column < 3
        → exists_where
            (is_seam
              (slot_index 2 3 Order.by_column row column)
              (slot_index 2 3 Order.by_column (next_row f row) (next_column f column))
              f)
            (layout_adjacencies 2 3 Order.by_column)
          ≡ true)
adjacent_run = layout_adjacencies-exact 2 3 Order.by_column

matched_run :
    (count_matches fixed edges.right edges.left ≤ 2)
    × (count_matches fixed edges.right edges.left ≤ 2)
matched_run = count_matches-le fixed edges.right edges.left

cached_run :
    ((evaluate_cached fixed signatures 1 2 Order.by_row (some 0 ∷ some 1 ∷ []) []).0
      ≡ evaluate fixed signatures 1 2 Order.by_row (some 0 ∷ some 1 ∷ []))
    × IsTrueCache fixed signatures
        (evaluate_cached fixed signatures 1 2 Order.by_row (some 0 ∷ some 1 ∷ []) []).1
cached_run =
    evaluate_cached-eq-evaluate fixed signatures 1 2 Order.by_row (some 0 ∷ some 1 ∷ []) [] tt

two_by_two-IsCandidate : IsCandidate 3 1 two_by_two
two_by_two-IsCandidate = omega arith

layout_answered : (s : Suggestion Fixed) × (choose_best fixed signatures 3 1 true ≡ some s)
layout_answered = choose_best-answers fixed signatures 3 1 true two_by_two two_by_two-IsCandidate

abbrev chosen : Suggestion Fixed
chosen = (choose_best-answers fixed signatures 3 1 true two_by_two two_by_two-IsCandidate).0

chosen-IsSound : IsSound fixed signatures 3 1 true chosen
chosen-IsSound =
    choose_best-IsSound fixed signatures 3 1 true chosen
      (choose_best-answers fixed signatures 3 1 true two_by_two two_by_two-IsCandidate).1
