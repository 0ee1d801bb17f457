-- ===== src/Seams/Choice/Complete.antt =====
-- What choose_best_layout returns.
use plt_converter.Prelude.{
  ℕ, ◌-◌, ◌*◌, ◌≤◌, ◌≡◌, ◌∙◌, refl, sym, subst, Bool, true, false, ◌&&◌, Option, none, some, List,
  [], ◌∷◌, ◌++◌, ◌==◌, arith, All, All-append, map, length, Bool-cases, Option-cases, ◌⊎◌, inl, inr,
  ==→eq, leb→le,
}
use plt_converter.Seams.Arithmetic.{Arithmetic}
use plt_converter.Seams.Scores.{Facing, Edges, Order}
use plt_converter.Seams.Grids.{Grid, candidate_grids, IsCandidate, candidate_grids-exact}
use plt_converter.Seams.Evaluation.{Arrangement, evaluate, total_score}
use plt_converter.Seams.Blanks.{
  page_slots, blanks, Scored, sort_ranked, best_of, optimize_candidates, optimize_from,
  optimize_blanks, is_hopeless, with_result, greater, best_total,
}
use plt_converter.Seams.Blanks.Orderly.{
  IsArranged, evaluate-IsArranged, optimize_blanks-IsArranged, All-map, best_of-All,
  sort_ranked-All, page_slots-pages, length-page_slots, append-pages,
}
use plt_converter.Seams.Doubts.{has_competing, blank_conflicts, identity_of}
use plt_converter.Seams.Doubts.Parted.{IsParted, blank_conflicts-unparted}
use plt_converter.Seams.Doubts.Rivals.{IsHarmless, uncontested}
use plt_converter.Seams.Choice.{
  minimum_high, is_high, is_medium, Confidence, Suggestion, confidence_level, all_arrangements,
  as_scored, sort_arrangements, candidates_of, judge, choose_among, choose_best,
}

some_inj {ℓ} : {A : Type ℓ} {x y : A} → some x ≡ some y → x ≡ y
some_inj e = ground arith

module _ {F : Type 0} (a : Arithmetic F) (signatures : ℕ → Edges F) (n allowed : ℕ) where
  -- The arrangement fills a grid that is allowed, every page once and in order.
  pub record IsComplete (r : Arrangement F) : Type 0 where
    pub grid : IsCandidate n allowed (record { rows = r.rows; columns = r.columns })
    pub arranged : IsArranged a n r.rows r.columns r

  base-IsComplete :
      (g : Grid) (order : Order)
      → IsCandidate n allowed g
      → IsComplete (
          evaluate a signatures g.rows g.columns order
            (page_slots n ++ blanks (g.rows * g.columns - n)))
  unfolding evaluate
  base-IsComplete g order h =
      let slots = page_slots n ++ blanks (g.rows * g.columns - n) in
      let p = append-pages (page_slots n) (g.rows * g.columns - n) in
      let p1 = p.1 in
      let l = length-page_slots n 0 in
      let holds = h.holds in
      let full : length slots ≡ g.rows * g.columns = omega (arith, p1, l, holds) in
      record {
        grid = record {
          some_rows = h.some_rows;
          few_rows = h.few_rows;
          some_columns = h.some_columns;
          few_columns = h.few_columns;
          holds = h.holds;
          blank = h.blank;
        };
        arranged =
            evaluate-IsArranged a signatures n g.rows g.columns order slots
              (p.0 ∙ page_slots-pages n 0) full;
      }

  all_arrangements-All :
      (gs : List Grid)
      → All (IsCandidate n allowed) gs
      → All IsComplete (all_arrangements a signatures n gs)
  all_arrangements-All [] h = tt
  all_arrangements-All (g ∷ gs) h = (
    base-IsComplete g Order.by_row h.0,
    (base-IsComplete g Order.by_column h.0, all_arrangements-All gs h.1),
  )

  sort_arrangements-All :
      (rs : List (Arrangement F))
      → All IsComplete rs
      → All IsComplete (sort_arrangements a signatures rs)
  sort_arrangements-All rs h =
      let S = λ (x : Scored F). IsComplete x.arrangement in
      All-map IsComplete S (λ (x : Scored F). x.arrangement)
        (sort_ranked a (map (as_scored a signatures) rs)) (λ x q. q)
        (sort_ranked-All a S (map (as_scored a signatures) rs)
          (All-map S IsComplete (as_scored a signatures) rs (λ r q. q) h))

  optimized-IsComplete :
      (c r : Arrangement F)
      → IsComplete c
      → optimize_blanks a signatures n c ≡ some r
      → IsComplete r
  optimized-IsComplete c r h e =
      let t = optimize_blanks-IsArranged a signatures n c r h.arranged h.grid.holds e in
      let rows = t.size.0 in
      let columns = t.size.1 in
      record {
        grid =
            subst (λ k. IsCandidate n allowed (record { rows = k; columns = r.columns })) (sym rows)
              (subst (λ k. IsCandidate n allowed (record { rows = c.rows; columns = k }))
                (sym columns) h.grid);
        arranged =
            subst (λ k. IsArranged a n k r.columns r) (sym rows)
              (subst (λ k. IsArranged a n c.rows k r) (sym columns) t);
      }

  with_result-eq-some :
      (o : Option (Arrangement F)) (f : Arrangement F → Option (List (Arrangement F)))
      (rs : List (Arrangement F))
      → with_result a signatures o f ≡ some rs
      → (r : Arrangement F) × (rest : List (Arrangement F)) × (o ≡ some r)
        × (f r ≡ some rest)
        × (rs ≡ r ∷ rest)
  with_result-eq-some none f rs e = absurd (ground arith)
  with_result-eq-some (some r) f rs e = elim (Option-cases (f r)) [
    | inl g ↦ absurd (let h = rw (g, with_result) at e in ground arith)
    | inr (rest, g) ↦ (r, rest, refl, g, sym (some_inj (rw (g, with_result) at e)))
  ]

  optimize_from-All :
      (cs rs : List (Arrangement F)) (best : F)
      → All IsComplete cs
      → optimize_from a signatures n cs best ≡ some rs
      → All IsComplete rs
  optimize_from-All [] rs best h e = subst (All IsComplete) (some_inj e) tt
  optimize_from-All (c ∷ cs) rs best h e = elim (Bool-cases (is_hopeless a signatures n best c)) [
    | inl hopeless ↦
        let (r, rest, f, g, same) =
          with_result-eq-some (some c) (λ r. optimize_from a signatures n cs best) rs
            (rw hopeless at e) in
        subst (All IsComplete) (sym same)
          (subst IsComplete (some_inj f) h.0, optimize_from-All cs rest best h.1 g)
    | inr hopeful ↦
        let (r, rest, f, g, same) =
          with_result-eq-some (optimize_blanks a signatures n c)
            (λ r. optimize_from a signatures n cs (greater a signatures best (total_score a r))) rs
            (rw hopeful at e) in
        subst (All IsComplete) (sym same) (
          optimized-IsComplete c r h.0 f,
          optimize_from-All cs rest (greater a signatures best (total_score a r)) h.1 g,
        )
  ]

  candidates_of-All :
      (optimize : Bool) (rs : List (Arrangement F))
      → candidates_of a signatures n allowed optimize ≡ some rs
      → All IsComplete rs
  unfolding optimize_candidates
  candidates_of-All optimize rs e =
      let sorted =
        sort_arrangements a signatures
          (all_arrangements a signatures n (candidate_grids n allowed)) in
      let s =
        sort_arrangements-All (all_arrangements a signatures n (candidate_grids n allowed))
          (all_arrangements-All (candidate_grids n allowed) (candidate_grids-exact n allowed).0) in
      elim (Bool-cases optimize) [
        | inr plain ↦ subst (All IsComplete) (some_inj (rw plain at e)) s
        | inl wanted ↦ elim (Option-cases (optimize_candidates a signatures n sorted)) [
          | inl f ↦ absurd (let g = rw (wanted, f) at e in ground arith)
          | inr (optimized, f) ↦
              let g : optimized ++ sorted ≡ rs = some_inj (rw (wanted, f) at e) in
              subst (All IsComplete) g (
                All-append IsComplete optimized sorted
                  (optimize_from-All sorted optimized (best_total a signatures sorted) s f) s)
        ]
      ]

  -- Four scored seams; every candidate shows the picture of the chosen one or of a candidate that does
  -- not compete with it; and in no row and no column do blanks part a strong seam.
  pub record IsUndoubted (candidates : List (Arrangement F)) (s : Suggestion F) : Type 0 where
    pub evidence : 4 ≤ s.layout.evidence
    pub unambiguous : s.ambiguous ≡ false
    pub uncontested_by :
        All (λ (c : Arrangement F). IsHarmless a s.layout candidates (identity_of a c)) candidates
    pub whole : s.conflicts ≡ 0
    pub whole_rows : ¬ IsParted a signatures n s.layout Facing.across s.layout.rows s.layout.columns
    pub whole_columns :
        ¬ IsParted a signatures n s.layout Facing.down s.layout.columns s.layout.rows

  confidence_level-low :
      (r : Arrangement F) (ambiguous : Bool) (k : ℕ)
      → (confidence_level a n r ambiguous k ≡ Confidence.low)
        ⊎ ((4 ≤ r.evidence) × (ambiguous ≡ false) × (k ≡ 0))
  unfolding confidence_level
  confidence_level-low r true k = inl refl
  confidence_level-low r false k = elim (Bool-cases (k == 0)) [
    | inr parted ↦ inl (rw parted refl)
    | inl whole ↦ elim (Bool-cases (is_high a n r)) [
      | inl high ↦ inr (high-evidence high, refl, ==→eq k 0 whole)
      | inr other ↦ elim (Bool-cases (is_medium a r)) [
        | inl medium ↦ inr (medium-evidence medium, refl, ==→eq k 0 whole)
        | inr doubtful ↦ inl (rw (whole, other, doubtful) refl)
      ]
    ]
  ]
    where
      and_left : (x y : Bool) → (x && y) ≡ true → x ≡ true
      and_left x y h = ground arith

      high-evidence : is_high a n r ≡ true → 4 ≤ r.evidence
      high-evidence h =
          let l =
            leb→le (minimum_high a n) r.evidence (and_left _ _ (and_left _ _ (and_left _ _ h))) in
          omega (arith, l)

      medium-evidence : is_medium a r ≡ true → 4 ≤ r.evidence
      medium-evidence h = leb→le 4 r.evidence (and_left _ _ (and_left _ _ h))

  judge-level :
      (candidates : List (Arrangement F)) (best : Arrangement F)
      → ((judge a signatures n candidates best).confidence ≡ Confidence.low)
        ⊎ IsUndoubted candidates (judge a signatures n candidates best)
  judge-level candidates best =
      elim (confidence_level-low best (has_competing a candidates best)
        (blank_conflicts a signatures n best)) [
          | inl low ↦ inl low
          | inr (evidence, alone, whole) ↦
              let seams = blank_conflicts-unparted a signatures n best whole in
              inr (record {
                evidence = evidence;
                unambiguous = alone;
                uncontested_by = uncontested a candidates best evidence alone;
                whole = whole;
                whole_rows = seams.0;
                whole_columns = seams.1;
              })
        ]

  -- What is returned: complete, and low in confidence or undoubted among the candidates.
  pub record IsSound (optimize : Bool) (s : Suggestion F) : Type 0 where
    pub complete : IsComplete s.layout
    pub candidates : List (Arrangement F)
    pub listed : candidates_of a signatures n allowed optimize ≡ some candidates
    pub level : (s.confidence ≡ Confidence.low) ⊎ IsUndoubted candidates s

  -- A layout that is chosen, with or without the search for blanks, fills a grid of at most 24 rows and
  -- 24 columns with at most the allowed blanks, and holds every page exactly once in the order of the
  -- source. Its confidence is low, or three things hold. It has at least four scored seams. Every
  -- candidate shows the same picture as it, or as a candidate that does not compete with it: one with
  -- more blanks, with fewer than four or than nine tenths of its scored seams, with fewer than nine tenths
  -- of its matched seams, or more than 0.02 below its confidence or its share of matched or of perfect
  -- seams. And in no row or column do blanks part two pages whose facing sides match with 0.9 at least, on
  -- two crossings at least, where no third page matches either of them within 0.1 of that.
  pub choose_best-IsSound :
      (optimize : Bool) (s : Suggestion F)
      → choose_best a signatures n allowed optimize ≡ some s
      → IsSound optimize s
  unfolding choose_best
  choose_best-IsSound optimize s e =
      elim (Option-cases (candidates_of a signatures n allowed optimize)) [
        | inl f ↦ absurd (let g = rw (f, choose_among) at e in ground arith)
        | inr (rs, f) ↦ elim (Option-cases (best_of a rs)) [
          | inl g ↦ absurd (let h = rw (f, choose_among, g) at e in ground arith)
          | inr (best, g) ↦
              let same : judge a signatures n rs best ≡ s =
                some_inj (rw (f, choose_among, g) at e) in
              subst (IsSound optimize) same (record {
                complete = best_of-All a IsComplete rs best (candidates_of-All optimize rs f) g;
                candidates = rs;
                listed = f;
                level = judge-level rs best;
              })
        ]
      ]
