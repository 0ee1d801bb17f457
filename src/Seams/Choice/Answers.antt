-- ===== src/Seams/Choice/Answers.antt =====
-- When choose_best_layout returns.
use plt_converter.Prelude.{
  ℕ, zero, suc, ◌-◌, ◌*◌, ◌<◌, ◌≡◌, refl, Bool, true, false, Option, some, List, [], ◌∷◌, ◌++◌,
  ◌==◌, arith, map, length, Bool-cases, inl, inr, exists_where,
}
use plt_converter.Seams.Arithmetic.{Arithmetic}
use plt_converter.Seams.Scores.{Edges, Order}
use plt_converter.Seams.Grids.{Grid, has_grid, candidate_grids, IsCandidate, candidate_grids-exact}
use plt_converter.Seams.Evaluation.{Arrangement, evaluate, total_score, rank_less}
use plt_converter.Seams.Blanks.{
  page_slots, insertions, same_slots, add_key, add_keys, expand, take, beam_width, Scored,
  insert_ranked, sort_ranked, best_from, best_of, score_sequence, place_blanks, optimize_blanks,
  is_hopeless, with_result, greater, optimize_from, best_total, optimize_candidates,
}
use plt_converter.Seams.Choice.{
  Suggestion, all_arrangements, as_scored, sort_arrangements, candidates_of, judge, choose_among,
  choose_best,
}

abbrev IsFilled {ℓ} : {A : Type ℓ} → List A → Type 0
IsFilled xs = 0 < length xs

map-IsFilled {ℓ κ} :
    {A : Type ℓ} {B : Type κ} (f : A → B) (xs : List A) → IsFilled xs → IsFilled (map f xs)
map-IsFilled f [] h = h
map-IsFilled f (x ∷ xs) h = omega arith

append-IsFilled {ℓ} : {A : Type ℓ} (xs ys : List A) → IsFilled ys → IsFilled (xs ++ ys)
append-IsFilled [] ys h = h
append-IsFilled (x ∷ xs) ys h = omega arith

take-IsFilled {ℓ} : {A : Type ℓ} (n : ℕ) (xs : List A) → 0 < n → IsFilled xs → IsFilled (take n xs)
take-IsFilled zero xs p h = p
take-IsFilled (suc n) [] p h = h
take-IsFilled (suc n) (x ∷ xs) p h = omega arith

insertions-IsFilled : (s : List (Option ℕ)) → IsFilled (insertions s)
insertions-IsFilled [] = omega arith
insertions-IsFilled (x ∷ s) = omega arith

add_key-IsFilled : (s : List (Option ℕ)) (keys : List (List (Option ℕ))) → IsFilled (add_key s keys)
add_key-IsFilled s [] = omega arith
add_key-IsFilled s (k ∷ keys) = elim (Bool-cases (exists_where (same_slots s) (k ∷ keys))) [
  | inl again ↦ rw again (omega arith)
  | inr new ↦ rw new (omega arith)
]

add_keys_kept : (ss keys : List (List (Option ℕ))) → IsFilled keys → IsFilled (add_keys ss keys)
add_keys_kept [] keys h = h
add_keys_kept (s ∷ ss) keys h = add_keys_kept ss (add_key s keys) (add_key-IsFilled s keys)

add_keys-IsFilled : (ss keys : List (List (Option ℕ))) → IsFilled ss → IsFilled (add_keys ss keys)
add_keys-IsFilled [] keys h = absurd (omega arith)
add_keys-IsFilled (s ∷ ss) keys h = add_keys_kept ss (add_key s keys) (add_key-IsFilled s keys)

expand_kept : (beam keys : List (List (Option ℕ))) → IsFilled keys → IsFilled (expand beam keys)
expand_kept [] keys h = h
expand_kept (s ∷ beam) keys h =
    expand_kept beam (add_keys (insertions s) keys) (add_keys_kept (insertions s) keys h)

expand-IsFilled : (beam keys : List (List (Option ℕ))) → IsFilled beam → IsFilled (expand beam keys)
expand-IsFilled [] keys h = absurd (omega arith)
expand-IsFilled (s ∷ beam) keys h =
    expand_kept beam (add_keys (insertions s) keys)
      (add_keys-IsFilled (insertions s) keys (insertions-IsFilled s))

beam_width-pos : (total : ℕ) → 0 < beam_width total
beam_width-pos total = ground arith

module _ {F : Type 0} (a : Arithmetic F) where
  insert_ranked-IsFilled : (x : Scored F) (ys : List (Scored F)) → IsFilled (insert_ranked a x ys)
  insert_ranked-IsFilled x [] = omega arith
  insert_ranked-IsFilled x (y ∷ ys) = elim (Bool-cases (rank_less a x.arrangement y.arrangement)) [
    | inl later ↦ rw later (omega arith)
    | inr first ↦ rw first (omega arith)
  ]

  sort_ranked-IsFilled : (xs : List (Scored F)) → IsFilled xs → IsFilled (sort_ranked a xs)
  sort_ranked-IsFilled [] h = h
  sort_ranked-IsFilled (x ∷ xs) h = insert_ranked-IsFilled x (sort_ranked a xs)

  best_of-answers :
      (rs : List (Arrangement F)) → IsFilled rs → (r : Arrangement F) × (best_of a rs ≡ some r)
  best_of-answers [] h = absurd (omega arith)
  best_of-answers (r ∷ rs) h = (best_from a r rs, refl)

  module _ (signatures : ℕ → Edges F) (n : ℕ) where
    place_blanks-IsFilled :
        (rows columns : ℕ) (order : Order) (width k : ℕ) (beam : List (List (Option ℕ)))
        → 0 < width
        → IsFilled beam
        → IsFilled (place_blanks a signatures rows columns order width k beam)
    place_blanks-IsFilled rows columns order width zero beam w h = h
    place_blanks-IsFilled rows columns order width (suc k) beam w h =
        let scored = map (score_sequence a signatures rows columns order k) (expand beam []) in
        place_blanks-IsFilled rows columns order width k
          (map (λ (x : Scored F). x.sequence) (take width (sort_ranked a scored))) w
          (map-IsFilled (λ (x : Scored F). x.sequence) (take width (sort_ranked a scored))
            (take-IsFilled width (sort_ranked a scored) w (
              sort_ranked-IsFilled scored (
                map-IsFilled (score_sequence a signatures rows columns order k) (expand beam [])
                  (expand-IsFilled beam [] h)))))

    optimize_blanks-answers :
        (c : Arrangement F) → (r : Arrangement F) × (optimize_blanks a signatures n c ≡ some r)
    unfolding optimize_blanks
    optimize_blanks-answers c =
        let total = c.rows * c.columns - n in
        let placed =
          place_blanks a signatures c.rows c.columns c.order (beam_width total) total
            (page_slots n ∷ []) in
        elim (Bool-cases (total == 0)) [
          | inl none_left ↦ (c, rw none_left refl)
          | inr left ↦
              let (r, e) =
                best_of-answers (map (evaluate a signatures c.rows c.columns c.order) placed) (
                  map-IsFilled (evaluate a signatures c.rows c.columns c.order) placed (
                    place_blanks-IsFilled c.rows c.columns c.order (beam_width total) total
                      (page_slots n ∷ []) (beam_width-pos total) (omega arith))) in
              (r, rw left e)
        ]

    optimize_from-answers :
        (cs : List (Arrangement F)) (best : F)
        → (rs : List (Arrangement F)) × (optimize_from a signatures n cs best ≡ some rs)
    optimize_from-answers [] best = ([], refl)
    optimize_from-answers (c ∷ cs) best = elim (Bool-cases (is_hopeless a signatures n best c)) [
      | inl hopeless ↦
          let (rs, e) = optimize_from-answers cs best in
          (c ∷ rs, rw (hopeless, with_result, e) refl)
      | inr hopeful ↦
          let (r, f) = optimize_blanks-answers c in
          let (rs, e) = optimize_from-answers cs (greater a signatures best (total_score a r)) in
          (r ∷ rs, rw (hopeful, f, with_result, e) refl)
    ]

    module _ (allowed : ℕ) where
      abbrev sorted : List (Arrangement F)
      sorted =
          sort_arrangements a signatures
            (all_arrangements a signatures n (candidate_grids n allowed))

      arrangements-IsFilled :
          (gs : List Grid) → IsFilled gs → IsFilled (all_arrangements a signatures n gs)
      arrangements-IsFilled [] h = h
      arrangements-IsFilled (g ∷ gs) h = omega arith

      grids-IsFilled :
          (g : Grid) (gs : List Grid) → has_grid g.rows g.columns gs ≡ true → IsFilled gs
      grids-IsFilled g [] h = absurd (ground arith)
      grids-IsFilled g (x ∷ gs) h = omega arith

      sorted-IsFilled : (g : Grid) → IsCandidate n allowed g → IsFilled sorted
      sorted-IsFilled g h =
          let all = all_arrangements a signatures n (candidate_grids n allowed) in
          map-IsFilled (λ (x : Scored F). x.arrangement)
            (sort_ranked a (map (as_scored a signatures) all))
            (sort_ranked-IsFilled (map (as_scored a signatures) all) (
              map-IsFilled (as_scored a signatures) all (
                arrangements-IsFilled (candidate_grids n allowed) (
                  grids-IsFilled g (candidate_grids n allowed)
                    ((candidate_grids-exact n allowed).1 g h)))))

      candidates-IsFilled :
          (optimize : Bool)
          → IsFilled sorted
          → (rs : List (Arrangement F)) × (candidates_of a signatures n allowed optimize ≡ some rs)
            × IsFilled rs
      unfolding optimize_candidates
      candidates-IsFilled false h = (sorted, refl, h)
      candidates-IsFilled true h =
          let (rs, e) = optimize_from-answers sorted (best_total a signatures sorted) in
          (rs ++ sorted, rw e refl, append-IsFilled rs sorted h)

      -- Where some grid of at most 24 rows and 24 columns holds the pages with at most the allowed
      -- blanks, a layout is returned, with or without the search for blanks, which never runs out of
      -- sequences.
      pub choose_best-answers :
          (optimize : Bool) (g : Grid)
          → IsCandidate n allowed g
          → (s : Suggestion F) × (choose_best a signatures n allowed optimize ≡ some s)
      unfolding choose_best
      choose_best-answers optimize g h =
          let (rs, e, filled) = candidates-IsFilled optimize (sorted-IsFilled g h) in
          let (best, f) = best_of-answers rs filled in
          (judge a signatures n rs best, rw (e, choose_among, f) refl)
