-- ===== src/Seams/Evaluation/Cache.antt =====
-- The score cache changes no score.
use plt_converter.Prelude.{
  ℕ, ◌≡◌, ◌∙◌, ap, refl, sym, true, Option, none, some, List, [], ◌∷◌, arith, All, first_where,
  Option-cases, inl, inr, Bool-cases,
}
use plt_converter.Seams.Arithmetic.{Arithmetic}
use plt_converter.Seams.Scores.{
  Facing, same_facing, Edges, Order, Seam, layout_adjacencies, side_score,
}
use plt_converter.Seams.Evaluation.{
  Cached, Tally, is_key, slot_at, fresh_tally, count_found, arrangement_of, seam_score, tally_pages,
  tally_seams, evaluate_cached, score_pages, score_seams, evaluate,
}

same_facing→eq : (f g : Facing) → same_facing f g ≡ true → f ≡ g
same_facing→eq Facing.across Facing.across h = refl
same_facing→eq Facing.across Facing.down h = absurd (ground arith)
same_facing→eq Facing.down Facing.across h = absurd (ground arith)
same_facing→eq Facing.down Facing.down h = refl

module _ {F : Type 0} (a : Arithmetic F) (signatures : ℕ → Edges F) where
  -- An entry holds what it is the key of.
  abbrev pub IsTrueEntry : Cached F → Type 0
  IsTrueEntry e = e.score ≡ side_score a signatures e.first e.second e.facing

  abbrev pub IsTrueCache : List (Cached F) → Type 0
  IsTrueCache cache = All IsTrueEntry cache

  found_entry :
      (p q : ℕ) (f : Facing) (cache : List (Cached F)) (e : Cached F)
      → IsTrueCache cache
      → first_where (is_key p q f) cache ≡ some e
      → e.score ≡ side_score a signatures p q f
  found_entry p q f [] e t h = absurd (ground arith)
  found_entry p q f (x ∷ cache) e t h = elim (Bool-cases (is_key p q f x)) [
    | inr other ↦ found_entry p q f cache e t.1 (rw other at h)
    | inl key ↦
        let same : x ≡ e = some_inj (rw key at h) in
        let first : x.first ≡ p = ground arith in
        let second : x.second ≡ q = ground arith in
        let facing : x.facing ≡ f = same_facing→eq x.facing f (ground arith) in
        ap (λ (y : Cached F). y.score) (sym same)
        ∙ t.0
        ∙ ap (λ k. side_score a signatures k x.second x.facing) first
        ∙ ap (λ k. side_score a signatures p k x.facing) second
        ∙ ap (side_score a signatures p q) facing
  ]
    where
      some_inj : {x y : Cached F} → some x ≡ some y → x ≡ y
      some_inj g = ground arith

  seam_score-true :
      (p q : ℕ) (f : Facing) (cache : List (Cached F))
      → IsTrueCache cache
      → ((seam_score a signatures p q f cache).0 ≡ side_score a signatures p q f)
        × IsTrueCache (seam_score a signatures p q f cache).1
  unfolding seam_score
  seam_score-true p q f cache t = elim (Option-cases (first_where (is_key p q f) cache)) [
    | inl missing ↦ rw missing (refl, (refl, t))
    | inr (e, h) ↦ rw h (found_entry p q f cache e t h, t)
  ]

  tally_pages-true :
      (x y : Option ℕ) (f : Facing) (t : Tally F) (cache : List (Cached F))
      → IsTrueCache cache
      → ((tally_pages a signatures x y f (t, cache)).0 ≡ score_pages a signatures x y f t)
        × IsTrueCache (tally_pages a signatures x y f (t, cache)).1
  tally_pages-true none y f t cache h = (refl, h)
  tally_pages-true (some p) none f t cache h = (refl, h)
  tally_pages-true (some p) (some q) f t cache h =
      let s = seam_score-true p q f cache h in (ap (λ o. count_found a o t) s.0, s.1)

  tally_seams-true :
      (slots : List (Option ℕ)) (ss : List Seam) (t : Tally F) (cache : List (Cached F))
      → IsTrueCache cache
      → ((tally_seams a signatures slots ss (t, cache)).0 ≡ score_seams a signatures slots ss t)
        × IsTrueCache (tally_seams a signatures slots ss (t, cache)).1
  tally_seams-true slots [] t cache h = (refl, h)
  tally_seams-true slots (s ∷ ss) t cache h =
      let x = slot_at slots s.first in
      let y = slot_at slots s.second in
      let one = tally_pages-true x y s.facing t cache h in
      let step = tally_pages a signatures x y s.facing (t, cache) in
      let rest = tally_seams-true slots ss step.0 step.1 one.1 in
      (rest.0 ∙ ap (score_seams a signatures slots ss) one.0, rest.1)

  -- Scoring an arrangement through a cache whose entries are the scores of their seams gives what
  -- scoring it without a cache gives, and leaves such a cache.
  pub evaluate_cached-eq-evaluate :
      (rows columns : ℕ) (order : Order) (slots : List (Option ℕ)) (cache : List (Cached F))
      → IsTrueCache cache
      → ((evaluate_cached a signatures rows columns order slots cache).0
          ≡ evaluate a signatures rows columns order slots)
        × IsTrueCache (evaluate_cached a signatures rows columns order slots cache).1
  unfolding evaluate_cached evaluate
  evaluate_cached-eq-evaluate rows columns order slots cache h =
      let t =
        tally_seams-true slots (layout_adjacencies rows columns order) (fresh_tally a) cache h in
      (ap (arrangement_of a rows columns order slots) t.0, t.1)
