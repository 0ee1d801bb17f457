-- ===== src/Seams/Evaluation.antt =====
-- _seam_score, _evaluate_layout, _total_score and _rank_result.
use plt_converter.Prelude.{
  ℕ, zero, suc, ◌+◌, ◌-◌, ◌*◌, Bool, true, false, not, ◌&&◌, ◌||◌, Option, none, some, List, [],
  ◌∷◌, ◌++◌, ◌==◌, ltb, if◌then◌else◌, first_where, length, count, one_if, total,
}
use plt_converter.Seams.Arithmetic.{Arithmetic}
use plt_converter.Seams.Scores.{
  Facing, same_facing, Edges, Order, Seam, layout_adjacencies, side_score,
}
pub mod Cache

-- The dictionary that _evaluate_layout returns. A slot is a page, or blank.
pub record Arrangement (F : Type 0) : Type 0 where
  pub rows : ℕ
  pub columns : ℕ
  pub order : Order
  pub slots : List (Option ℕ)
  pub evidence : ℕ
  pub matched : ℕ
  pub perfect : ℕ
  pub zeros : ℕ
  pub confidence : F

-- An entry of score_cache.
pub record Cached (F : Type 0) : Type 0 where
  pub first : ℕ
  pub second : ℕ
  pub facing : Facing
  pub score : Option F

-- The counters of _evaluate_layout.
pub record Tally (F : Type 0) : Type 0 where
  pub scores : List F
  pub matched : ℕ
  pub perfect : ℕ
  pub zeros : ℕ

abbrev pub is_key : {F : Type 0} → ℕ → ℕ → Facing → Cached F → Bool
is_key p q f e = (e.first == p) && (e.second == q) && same_facing e.facing f

-- `slots[index]`, with the blanks that fill the grid.
abbrev pub slot_at : List (Option ℕ) → ℕ → Option ℕ
slot_at [] n = none
slot_at (x ∷ xs) zero = x
slot_at (x ∷ xs) (suc n) = slot_at xs n

abbrev pub is_blank : Option ℕ → Bool
is_blank none = true
is_blank (some p) = false

module _ {F : Type 0} (a : Arithmetic F) where
  abbrev pub fresh_tally : Tally F
  fresh_tally = record { scores = []; matched = 0; perfect = 0; zeros = 0 }

  -- One score that is not None.
  abbrev pub count_score : F → Tally F → Tally F
  count_score s t = record {
    scores = t.scores ++ s ∷ [];
    matched = t.matched + one_if (a.less (a.of_nat 0) s);
    perfect = t.perfect + one_if (not (a.less s (a.decimal 999 3)));
    zeros = t.zeros + one_if (a.same s (a.of_nat 0));
  }

  abbrev pub count_found : Option F → Tally F → Tally F
  count_found none t = t
  count_found (some s) t = count_score s t

  -- sum(scores)
  abbrev pub sum_from : F → List F → F
  sum_from acc [] = acc
  sum_from acc (s ∷ ss) = sum_from (a.add acc s) ss

  abbrev pub confidence_of : List F → F
  confidence_of ss =
      if length ss == 0
      then a.of_nat 0
      else a.round4 (a.div (sum_from (a.of_nat 0) ss) (a.of_nat (length ss)))

  abbrev pub arrangement_of : ℕ → ℕ → Order → List (Option ℕ) → Tally F → Arrangement F
  arrangement_of rows columns order slots t = record {
    rows = rows;
    columns = columns;
    order = order;
    slots = slots;
    evidence = length t.scores;
    matched = t.matched;
    perfect = t.perfect;
    zeros = t.zeros;
    confidence = confidence_of t.scores;
  }

  module _ (signatures : ℕ → Edges F) where
    -- Without an entry the score is computed and kept.
    abbrev pub keep_score :
        ℕ → ℕ → Facing → List (Cached F) → Option (Cached F) → Option F × List (Cached F)
    keep_score p q f cache (some e) = (e.score, cache)
    keep_score p q f cache none =
        let s = side_score a signatures p q f in
        (s, record { first = p; second = q; facing = f; score = s } ∷ cache)

    -- _seam_score with its cache
    unfoldable pub seam_score : ℕ → ℕ → Facing → List (Cached F) → Option F × List (Cached F)
    seam_score p q f cache = keep_score p q f cache (first_where (is_key p q f) cache)

    -- The loop of _evaluate_layout over the seams; a seam at a blank is left out.
    abbrev pub tally_pages :
        Option ℕ → Option ℕ → Facing → Tally F × List (Cached F) → Tally F × List (Cached F)
    tally_pages none q f t = t
    tally_pages (some p) none f t = t
    tally_pages (some p) (some q) f t = let s = seam_score p q f t.1 in (count_found s.0 t.0, s.1)

    abbrev pub tally_seams :
        List (Option ℕ) → List Seam → Tally F × List (Cached F) → Tally F × List (Cached F)
    tally_seams slots [] t = t
    tally_seams slots (s ∷ ss) t =
        tally_seams slots ss
          (tally_pages (slot_at slots s.first) (slot_at slots s.second) s.facing t)

    -- _evaluate_layout with a cache
    unfoldable pub evaluate_cached :
        ℕ → ℕ → Order → List (Option ℕ) → List (Cached F) → Arrangement F × List (Cached F)
    unfolding layout_adjacencies seam_score
    evaluate_cached rows columns order slots cache =
        let t = tally_seams slots (layout_adjacencies rows columns order) (fresh_tally, cache) in
        (arrangement_of rows columns order slots t.0, t.1)

    -- _evaluate_layout with score_cache=None
    abbrev pub score_pages : Option ℕ → Option ℕ → Facing → Tally F → Tally F
    score_pages none q f t = t
    score_pages (some p) none f t = t
    score_pages (some p) (some q) f t = count_found (side_score a signatures p q f) t

    abbrev pub score_seams : List (Option ℕ) → List Seam → Tally F → Tally F
    score_seams slots [] t = t
    score_seams slots (s ∷ ss) t =
        score_seams slots ss
          (score_pages (slot_at slots s.first) (slot_at slots s.second) s.facing t)

    unfoldable pub evaluate : ℕ → ℕ → Order → List (Option ℕ) → Arrangement F
    unfolding layout_adjacencies side_score
    evaluate rows columns order slots =
        arrangement_of rows columns order slots
          (score_seams slots (layout_adjacencies rows columns order) fresh_tally)

  -- _total_score
  abbrev pub total_score : Arrangement F → F
  total_score r = a.round4 (a.mul r.confidence (a.of_nat r.evidence))

  abbrev pub blank_count : Arrangement F → ℕ
  blank_count r = count is_blank r.slots

  -- abs(rows - columns)
  abbrev pub skew : Arrangement F → ℕ
  skew r = (r.rows - r.columns) + (r.columns - r.rows)

  -- `<` on tuples, one entry at a time.
  abbrev pub then_less : Bool → Bool → Bool → Bool
  then_less same less later = if same then later else less

  abbrev pub less_number : F → F → Bool → Bool
  less_number x y later = then_less (a.same x y) (a.less x y) later

  abbrev pub less_count : ℕ → ℕ → Bool → Bool
  less_count m n later = then_less (m == n) (ltb m n) later

  -- `_rank_result(r) < _rank_result(s)`; the entries with a minus sign compare the other way round.
  unfoldable pub rank_less : Arrangement F → Arrangement F → Bool
  rank_less r s = less_number (total_score r) (total_score s) (
      less_count r.perfect s.perfect (
        less_count r.matched s.matched (
          less_count s.zeros r.zeros (
            less_number r.confidence s.confidence (
              less_count r.evidence s.evidence (
                less_count (blank_count s) (blank_count r)
                  (less_count (skew s) (skew r) false)))))))
