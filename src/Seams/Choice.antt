-- ===== src/Seams/Choice.antt =====
-- choose_best_layout.
use plt_converter.Prelude.{
  ℕ, zero, suc, ◌+◌, ◌-◌, ◌*◌, ◌/◌, min, max, Bool, true, false, not, ◌&&◌, ◌||◌, Option, none,
  some, List, [], ◌∷◌, ◌++◌, ◌==◌, ltb, leb, if◌then◌else◌, map,
}
use plt_converter.Seams.Arithmetic.{Arithmetic}
use plt_converter.Seams.Scores.{Edges, Order}
use plt_converter.Seams.Grids.{Grid, candidate_grids}
use plt_converter.Seams.Evaluation.{Arrangement, evaluate}
use plt_converter.Seams.Blanks.{
  page_slots, blanks, Scored, sort_ranked, best_of, optimize_candidates,
}
use plt_converter.Seams.Doubts.{ratio, at_least, has_competing, blank_conflicts}
pub mod Complete
pub mod Answers

pub data Confidence : Type 0 where
  low medium high : Confidence

pub record Suggestion (F : Type 0) : Type 0 where
  pub layout : Arrangement F
  pub confidence : Confidence
  pub ambiguous : Bool
  pub conflicts : ℕ

module _ {F : Type 0} (a : Arithmetic F) where
  -- `x / evidence if evidence else 0.0`
  abbrev pub ratio_or_zero : ℕ → ℕ → F
  ratio_or_zero m n = if n == 0 then a.of_nat 0 else ratio a m n

  abbrev pub minimum_high : ℕ → ℕ
  minimum_high n = max 6 (min 20 (n / 2))

  abbrev pub is_high : ℕ → Arrangement F → Bool
  is_high n r =
      leb (minimum_high n) r.evidence
      && at_least a r.confidence (a.decimal 92 2)
      && at_least a (ratio_or_zero r.matched r.evidence) (a.decimal 9 1)
      && at_least a (ratio_or_zero r.perfect r.evidence) (a.decimal 7 1)

  abbrev pub is_medium : Arrangement F → Bool
  is_medium r =
      leb 4 r.evidence
      && at_least a r.confidence (a.decimal 75 2)
      && at_least a (ratio_or_zero r.matched r.evidence) (a.decimal 75 2)

  unfoldable pub confidence_level : ℕ → Arrangement F → Bool → ℕ → Confidence
  confidence_level n r ambiguous conflicts =
      if ambiguous || not (conflicts == 0)
      then Confidence.low
      else if is_high n r
      then Confidence.high
      else if is_medium r
      then Confidence.medium
      else Confidence.low

  module _ (signatures : ℕ → Edges F) where
    -- Both orders of one grid, the blanks at the end.
    abbrev pub base_arrangements : ℕ → Grid → List (Arrangement F)
    base_arrangements n g =
        let slots = page_slots n ++ blanks (g.rows * g.columns - n) in
        evaluate a signatures g.rows g.columns Order.by_row slots
        ∷ evaluate a signatures g.rows g.columns Order.by_column slots
        ∷ []

    abbrev pub all_arrangements : ℕ → List Grid → List (Arrangement F)
    all_arrangements n [] = []
    all_arrangements n (g ∷ gs) = base_arrangements n g ++ all_arrangements n gs

    abbrev pub as_scored : Arrangement F → Scored F
    as_scored r = record { sequence = r.slots; arrangement = r }

    -- candidates.sort(key=_rank_result, reverse=True)
    abbrev pub sort_arrangements : List (Arrangement F) → List (Arrangement F)
    sort_arrangements rs = map (λ (x : Scored F). x.arrangement) (sort_ranked a (map as_scored rs))

    -- optimized + candidates
    abbrev pub with_optimized :
        Option (List (Arrangement F)) → List (Arrangement F) → Option (List (Arrangement F))
    with_optimized none rs = none
    with_optimized (some optimized) rs = some (optimized ++ rs)

    abbrev pub candidates_of : ℕ → ℕ → Bool → Option (List (Arrangement F))
    candidates_of n allowed optimize =
        let sorted = sort_arrangements (all_arrangements n (candidate_grids n allowed)) in
        if optimize
        then with_optimized (optimize_candidates a signatures n sorted) sorted
        else some sorted

    abbrev pub judge : ℕ → List (Arrangement F) → Arrangement F → Suggestion F
    judge n candidates best =
        let ambiguous = has_competing a candidates best in
        let conflicts = blank_conflicts a signatures n best in
        record {
          layout = best;
          confidence = confidence_level n best ambiguous conflicts;
          ambiguous = ambiguous;
          conflicts = conflicts;
        }

    abbrev pub choose_among : ℕ → Option (List (Arrangement F)) → Option (Suggestion F)
    choose_among n none = none
    choose_among n (some candidates) = elim (best_of a candidates) [
      | none ↦ none
      | some best ↦ some (judge n candidates best)
    ]

    -- choose_best_layout, `none` where it raises ValueError.
    unfoldable pub choose_best : ℕ → ℕ → Bool → Option (Suggestion F)
    unfolding candidate_grids optimize_candidates confidence_level has_competing blank_conflicts
    choose_best n allowed optimize = choose_among n (candidates_of n allowed optimize)
