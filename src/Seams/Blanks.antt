-- ===== src/Seams/Blanks.antt =====
-- _optimize_blank_positions, _blank_search_upper_bound and _optimize_candidates. The score cache is left
-- out here: Seams.Evaluation.Cache is about it.
use plt_converter.Prelude.{
  ℕ, zero, suc, ◌+◌, ◌-◌, ◌*◌, min, max, Bool, true, false, not, ◌&&◌, ◌||◌, Option, none, some,
  List, [], ◌∷◌, ◌++◌, ◌==◌, ltb, leb, if◌then◌else◌, map, length, exists_where,
}
use plt_converter.Seams.Arithmetic.{Arithmetic}
use plt_converter.Seams.Scores.{Facing, Edges, Order, side_score}
use plt_converter.Seams.Evaluation.{Arrangement, evaluate, rank_less, total_score, blank_count}
pub mod Orderly

-- list(range(n)), as slots.
abbrev pub page_slots_from : ℕ → ℕ → List (Option ℕ)
page_slots_from zero p = []
page_slots_from (suc k) p = some p ∷ page_slots_from k (p + 1)

abbrev pub page_slots : ℕ → List (Option ℕ)
page_slots n = page_slots_from n 0

-- `[None] * k`
abbrev pub blanks : ℕ → List (Option ℕ)
blanks zero = []
blanks (suc k) = none ∷ blanks k

-- A blank at each position, from the first to behind the last.
abbrev pub insertions : List (Option ℕ) → List (List (Option ℕ))
insertions [] = (none ∷ []) ∷ []
insertions (x ∷ xs) = (none ∷ x ∷ xs) ∷ map (λ ys. x ∷ ys) (insertions xs)

abbrev pub same_slot : Option ℕ → Option ℕ → Bool
same_slot none none = true
same_slot (some p) (some q) = p == q
same_slot _ _ = false

abbrev pub same_slots : List (Option ℕ) → List (Option ℕ) → Bool
same_slots [] [] = true
same_slots (x ∷ xs) (y ∷ ys) = same_slot x y && same_slots xs ys
same_slots _ _ = false

-- The keys of `expanded`, in the order of their first insertion.
abbrev pub add_key : List (Option ℕ) → List (List (Option ℕ)) → List (List (Option ℕ))
add_key s keys = if exists_where (same_slots s) keys then keys else keys ++ s ∷ []

abbrev pub add_keys : List (List (Option ℕ)) → List (List (Option ℕ)) → List (List (Option ℕ))
add_keys [] keys = keys
add_keys (s ∷ ss) keys = add_keys ss (add_key s keys)

abbrev pub expand : List (List (Option ℕ)) → List (List (Option ℕ)) → List (List (Option ℕ))
expand [] keys = keys
expand (s ∷ beam) keys = expand beam (add_keys (insertions s) keys)

abbrev pub take {ℓ} : {A : Type ℓ} → ℕ → List A → List A
take zero xs = []
take (suc n) [] = []
take (suc n) (x ∷ xs) = x ∷ take n xs

abbrev pub beam_width : ℕ → ℕ
beam_width blank_total = if leb blank_total 2 then 64 else 16

-- A sequence with the arrangement that it is ranked by.
pub record Scored (F : Type 0) : Type 0 where
  pub sequence : List (Option ℕ)
  pub arrangement : Arrangement F

module _ {F : Type 0} (a : Arithmetic F) where
  -- sort(key=..., reverse=True), which keeps the order of equal ranks.
  abbrev pub insert_ranked : Scored F → List (Scored F) → List (Scored F)
  insert_ranked x [] = x ∷ []
  insert_ranked x (y ∷ ys) =
      let later = y ∷ insert_ranked x ys in
      if rank_less a x.arrangement y.arrangement then later else x ∷ y ∷ ys

  abbrev pub sort_ranked : List (Scored F) → List (Scored F)
  sort_ranked [] = []
  sort_ranked (x ∷ xs) = insert_ranked x (sort_ranked xs)

  -- max(..., key=_rank_result): the first of the greatest.
  abbrev pub best_from : Arrangement F → List (Arrangement F) → Arrangement F
  best_from best [] = best
  best_from best (r ∷ rs) = best_from (if rank_less a best r then r else best) rs

  abbrev pub best_of : List (Arrangement F) → Option (Arrangement F)
  best_of [] = none
  best_of (r ∷ rs) = some (best_from r rs)

  module _ (signatures : ℕ → Edges F) where
    abbrev pub score_sequence : ℕ → ℕ → Order → ℕ → List (Option ℕ) → Scored F
    score_sequence rows columns order remaining s = record {
      sequence = s;
      arrangement = evaluate a signatures rows columns order (s ++ blanks remaining);
    }

    -- The rounds of the beam search, `k` blanks still to be placed.
    abbrev pub place_blanks :
        ℕ → ℕ → Order → ℕ → ℕ → List (List (Option ℕ)) → List (List (Option ℕ))
    place_blanks rows columns order width zero beam = beam
    place_blanks rows columns order width (suc k) beam = place_blanks rows columns order width k (
        map (λ (x : Scored F). x.sequence)
          (take width (sort_ranked (map (score_sequence rows columns order k) (expand beam [])))))

    -- _optimize_blank_positions; `none` where `max` would have no argument.
    unfoldable pub optimize_blanks : ℕ → Arrangement F → Option (Arrangement F)
    optimize_blanks n c =
        let total = c.rows * c.columns - n in
        if total == 0
        then some c
        else best_of (
            map (evaluate a signatures c.rows c.columns c.order)
              (place_blanks c.rows c.columns c.order (beam_width total) total (page_slots n ∷ [])))

    -- The facing sides of pages in sequence, and across the sequence, with the span between those.
    abbrev pub sequence_facing : Order → Facing
    sequence_facing Order.by_row = Facing.across
    sequence_facing Order.by_column = Facing.down

    abbrev pub cross_facing : Order → Facing
    cross_facing Order.by_row = Facing.down
    cross_facing Order.by_column = Facing.across

    abbrev pub span_of : Arrangement F → Order → ℕ
    span_of c Order.by_row = c.columns
    span_of c Order.by_column = c.rows

    abbrev pub add_found : F → Option F → F
    add_found total none = total
    add_found total (some s) = a.add total s

    abbrev pub better_found : F → Option F → F
    better_found best none = best
    better_found best (some s) = if a.less best s then s else best

    -- The pages from `q` on, `k` of them.
    abbrev pub best_adjacent : ℕ → Facing → ℕ → ℕ → F → F
    best_adjacent p f zero q best = best
    best_adjacent p f (suc k) q best =
        best_adjacent p f k (q + 1) (better_found best (side_score a signatures p q f))

    -- What page p adds to the bound.
    abbrev pub bound_page : ℕ → Arrangement F → ℕ → F → F
    bound_page n c p total =
        let gap = c.rows * c.columns - n in
        let span = span_of c c.order in
        let first_possible = max (p + 1) (p + span - gap) in
        let last_possible = min (n - 1) (p + span) in
        a.add
          (if ltb (p + 1) n
            then add_found total (side_score a signatures p (p + 1) (sequence_facing c.order))
            else total)
          (best_adjacent p (cross_facing c.order) (last_possible + 1 - first_possible)
            first_possible (a.of_nat 0))

    abbrev pub bound_pages : ℕ → Arrangement F → ℕ → ℕ → F → F
    bound_pages n c zero p total = total
    bound_pages n c (suc k) p total = bound_pages n c k (p + 1) (bound_page n c p total)

    -- _blank_search_upper_bound
    unfoldable pub upper_bound : ℕ → Arrangement F → F
    upper_bound n c = bound_pages n c n 0 (a.of_nat 0)

    -- _minimum_relevant_total
    unfoldable pub minimum_relevant : F → ℕ → F
    minimum_relevant best n =
        a.sub
          (a.sub (a.mul (a.decimal 9 1) best)
            (a.mul (a.mul (a.decimal 1805 5) (a.of_nat 2)) (a.of_nat n)))
          (a.decimal 2 4)

    abbrev pub is_hopeless : ℕ → F → Arrangement F → Bool
    is_hopeless n best c =
        ltb n (c.rows * c.columns) && a.less (upper_bound n c) (minimum_relevant best n)

    -- `max(best_total, x)`
    abbrev pub greater : F → F → F
    greater x y = if a.less x y then y else x

    abbrev pub greatest_total : F → List (Arrangement F) → F
    greatest_total best [] = best
    greatest_total best (c ∷ cs) = greatest_total (greater best (total_score a c)) cs

    -- `max(totals, default=0.0)`
    abbrev pub best_total : List (Arrangement F) → F
    best_total [] = a.of_nat 0
    best_total (c ∷ cs) = greatest_total (total_score a c) cs

    abbrev pub with_result :
        Option (Arrangement F)
        → (Arrangement F → Option (List (Arrangement F)))
        → Option (List (Arrangement F))
    with_result none f = none
    with_result (some r) f = elim (f r) [ none ↦ none | some rs ↦ some (r ∷ rs) ]

    -- The loop of _optimize_candidates.
    abbrev pub optimize_from : ℕ → List (Arrangement F) → F → Option (List (Arrangement F))
    optimize_from n [] best = some []
    optimize_from n (c ∷ cs) best =
        if is_hopeless n best c
        then with_result (some c) (λ r. optimize_from n cs best)
        else with_result (optimize_blanks n c)
            (λ r. optimize_from n cs (greater best (total_score a r)))

    -- _optimize_candidates
    unfoldable pub optimize_candidates : ℕ → List (Arrangement F) → Option (List (Arrangement F))
    unfolding optimize_blanks
    optimize_candidates n cs = optimize_from n cs (best_total cs)
