-- ===== src/Seams/Blanks/Orderly.antt =====
-- The blank search keeps the pages in their order and fills the grid.
use plt_converter.Prelude.{
  ℕ, zero, suc, ◌+◌, ◌-◌, ◌*◌, ◌≤◌, ◌≡◌, ◌∙◌, ap, refl, Option, none, some, List, [], ◌∷◌, ◌++◌,
  ◌==◌, arith, All, All-snoc, map, length, Bool-cases, inl, inr, exists_where, subst,
}
use plt_converter.Seams.Arithmetic.{Arithmetic}
use plt_converter.Seams.Scores.{Edges, Order}
use plt_converter.Seams.Evaluation.{Arrangement, evaluate, rank_less}
use plt_converter.Seams.Blanks.{
  page_slots_from, page_slots, blanks, insertions, same_slots, add_key, add_keys, expand, take,
  beam_width, Scored, insert_ranked, sort_ranked, best_from, best_of, score_sequence, place_blanks,
  optimize_blanks,
}

-- The pages of the slots that are not blank.
abbrev pub pages_of : List (Option ℕ) → List ℕ
pages_of [] = []
pages_of (none ∷ xs) = pages_of xs
pages_of (some p ∷ xs) = p ∷ pages_of xs

-- p, p + 1, ..., `k` of them.
abbrev pub pages_from : ℕ → ℕ → List ℕ
pages_from zero p = []
pages_from (suc k) p = p ∷ pages_from k (p + 1)

-- Every page once, in the source's order.
abbrev pub IsOrdered : ℕ → List (Option ℕ) → Type 0
IsOrdered n s = pages_of s ≡ pages_from n 0

pub page_slots-pages : (k p : ℕ) → pages_of (page_slots_from k p) ≡ pages_from k p
page_slots-pages zero p = refl
page_slots-pages (suc k) p = ap (λ xs. p ∷ xs) (page_slots-pages k (p + 1))

pub length-page_slots : (k p : ℕ) → length (page_slots_from k p) ≡ k
length-page_slots zero p = refl
length-page_slots (suc k) p = omega (arith, length-page_slots k (p + 1))

pub append-pages :
    (s : List (Option ℕ)) (k : ℕ)
    → (pages_of (s ++ blanks k) ≡ pages_of s) × (length (s ++ blanks k) ≡ length s + k)
append-pages [] zero = (refl, refl)
append-pages [] (suc k) = let r = append-pages [] k in (r.0, omega (arith, r.1))
append-pages (none ∷ s) k = let r = append-pages s k in (r.0, omega (arith, r.1))
append-pages (some p ∷ s) k =
    let r = append-pages s k in (ap (λ xs. p ∷ xs) r.0, omega (arith, r.1))

module _ {ℓ κ} {A : Type ℓ} (P : A → Type κ) where
  pub All-map {μ ν} :
      {B : Type μ} (Q : B → Type ν) (f : B → A) (xs : List B)
      → ((x : B) → Q x → P (f x))
      → All Q xs
      → All P (map f xs)
  All-map Q f [] k h = tt
  All-map Q f (x ∷ xs) k h = (k x h.0, All-map Q f xs k h.1)

  take-All : (n : ℕ) (xs : List A) → All P xs → All P (take n xs)
  take-All zero xs h = tt
  take-All (suc n) [] h = tt
  take-All (suc n) (x ∷ xs) h = (h.0, take-All n xs h.1)

-- One blank more, and the same pages.
abbrev IsLonger : List (Option ℕ) → List (Option ℕ) → Type 0
IsLonger s t = (pages_of t ≡ pages_of s) × (length t ≡ length s + 1)

insertions-All : (s : List (Option ℕ)) → All (IsLonger s) (insertions s)
insertions-All [] = ((refl, refl), tt)
insertions-All (none ∷ s) = (
  (refl, refl),
  All-map (IsLonger (none ∷ s)) (IsLonger s) (λ ys. none ∷ ys) (insertions s)
      (λ t h. let l = h.1 in (h.0, omega (arith, l))) (insertions-All s),
)
insertions-All (some p ∷ s) = (
  (refl, refl),
  All-map (IsLonger (some p ∷ s)) (IsLonger s) (λ ys. some p ∷ ys) (insertions s)
      (λ t h. let l = h.1 in (ap (λ xs. p ∷ xs) h.0, omega (arith, l))) (insertions-All s),
)

module _ (P : List (Option ℕ) → Type 0) where
  add_key-All :
      (s : List (Option ℕ)) (keys : List (List (Option ℕ)))
      → P s
      → All P keys
      → All P (add_key s keys)
  add_key-All s keys p h = elim (Bool-cases (exists_where (same_slots s) keys)) [
    | inl again ↦ rw again h
    | inr new ↦ rw new (All-snoc P keys s h p)
  ]

  add_keys-All :
      (ss keys : List (List (Option ℕ))) → All P ss → All P keys → All P (add_keys ss keys)
  add_keys-All [] keys hs h = h
  add_keys-All (s ∷ ss) keys hs h =
      add_keys-All ss (add_key s keys) hs.1 (add_key-All s keys hs.0 h)

module _ (P Q : List (Option ℕ) → Type 0)
    (longer : (s t : List (Option ℕ)) → IsLonger s t → P s → Q t) where
  longer-All :
      (s : List (Option ℕ)) (ts : List (List (Option ℕ))) → P s → All (IsLonger s) ts → All Q ts
  longer-All s [] p h = tt
  longer-All s (t ∷ ts) p h = (longer s t h.0 p, longer-All s ts p h.1)

  expand-All :
      (beam keys : List (List (Option ℕ))) → All P beam → All Q keys → All Q (expand beam keys)
  expand-All [] keys hb h = h
  expand-All (s ∷ beam) keys hb h =
      expand-All beam (add_keys (insertions s) keys) hb.1
        (add_keys-All Q (insertions s) keys (longer-All s (insertions s) hb.0 (insertions-All s)) h)

module _ {F : Type 0} (a : Arithmetic F) where
  insert_ranked-All :
      (P : Scored F → Type 0) (x : Scored F) (ys : List (Scored F))
      → P x
      → All P ys
      → All P (insert_ranked a x ys)
  insert_ranked-All P x [] p h = (p, tt)
  insert_ranked-All P x (y ∷ ys) p h = elim (Bool-cases (rank_less a x.arrangement y.arrangement)) [
    | inl later ↦ rw later (h.0, insert_ranked-All P x ys p h.1)
    | inr first ↦ rw first (p, h)
  ]

  pub sort_ranked-All :
      (P : Scored F → Type 0) (xs : List (Scored F)) → All P xs → All P (sort_ranked a xs)
  sort_ranked-All P [] h = tt
  sort_ranked-All P (x ∷ xs) h =
      insert_ranked-All P x (sort_ranked a xs) h.0 (sort_ranked-All P xs h.1)

  pub best_from-All :
      (P : Arrangement F → Type 0) (best : Arrangement F) (rs : List (Arrangement F))
      → P best
      → All P rs
      → P (best_from a best rs)
  best_from-All P best [] p h = p
  best_from-All P best (r ∷ rs) p h = elim (Bool-cases (rank_less a best r)) [
    | inl better ↦ rw better (best_from-All P r rs h.0 h.1)
    | inr worse ↦ rw worse (best_from-All P best rs p h.1)
  ]

  pub best_of-All :
      (P : Arrangement F → Type 0) (rs : List (Arrangement F)) (r : Arrangement F)
      → All P rs
      → best_of a rs ≡ some r
      → P r
  best_of-All P [] r h e = absurd (ground arith)
  best_of-All P (x ∷ rs) r h e =
      let same : best_from a x rs ≡ r = ground arith in subst P same (best_from-All P x rs h.0 h.1)

  -- Of the given size, full, and with every page once and in order.
  pub record IsArranged (n rows columns : ℕ) (r : Arrangement F) : Type 0 where
    pub size : (r.rows ≡ rows) × (r.columns ≡ columns)
    pub ordered : IsOrdered n r.slots
    pub full : length r.slots ≡ rows * columns

  module _ (signatures : ℕ → Edges F) (n : ℕ) where
    pub evaluate-IsArranged :
        (rows columns : ℕ) (order : Order) (s : List (Option ℕ))
        → IsOrdered n s
        → length s ≡ rows * columns
        → IsArranged n rows columns (evaluate a signatures rows columns order s)
    unfolding evaluate
    evaluate-IsArranged rows columns order s o l = record {
      size = (refl, refl);
      ordered = o;
      full = l;
    }

    place_blanks-All :
        (rows columns : ℕ) (order : Order) (width k : ℕ) (beam : List (List (Option ℕ)))
        → All (λ s. IsOrdered n s × (length s + k ≡ rows * columns)) beam
        → All
            (λ s. IsOrdered n s × (length s ≡ rows * columns))
            (place_blanks a signatures rows columns order width k beam)
    place_blanks-All rows columns order width zero beam h = all_same beam h
      where
        all_same :
            (xs : List (List (Option ℕ)))
            → All (λ s. IsOrdered n s × (length s + 0 ≡ rows * columns)) xs
            → All (λ s. IsOrdered n s × (length s ≡ rows * columns)) xs
        all_same [] h = tt
        all_same (x ∷ xs) h = let l = h.0.1 in ((h.0.0, omega (arith, l)), all_same xs h.1)
    place_blanks-All rows columns order width (suc k) beam h =
        let P = λ (s : List (Option ℕ)). IsOrdered n s × (length s + suc k ≡ rows * columns) in
        let Q = λ (s : List (Option ℕ)). IsOrdered n s × (length s + k ≡ rows * columns) in
        let S =
          λ (x : Scored F). IsOrdered n x.sequence × (length x.sequence + k ≡ rows * columns) in
        let scored = map (score_sequence a signatures rows columns order k) (expand beam []) in
        let e =
          expand-All P Q (λ s t l p. let m = l.1 in let q = p.1 in (l.0 ∙ p.0, omega (arith, m, q)))
            beam [] h tt in
        let s =
          All-map S Q (score_sequence a signatures rows columns order k) (expand beam []) (λ x q. q)
            e in
        let t = take-All S width (sort_ranked a scored) (sort_ranked-All S scored s) in
        place_blanks-All rows columns order width k
          (map (λ (x : Scored F). x.sequence) (take width (sort_ranked a scored)))
          (All-map Q S (λ (x : Scored F). x.sequence) (take width (sort_ranked a scored)) (λ x q. q)
            t)

    pub optimize_blanks-IsArranged :
        (c r : Arrangement F)
        → IsArranged n c.rows c.columns c
        → n ≤ c.rows * c.columns
        → optimize_blanks a signatures n c ≡ some r
        → IsArranged n c.rows c.columns r
    unfolding optimize_blanks
    optimize_blanks-IsArranged c r h fits e =
        let total = c.rows * c.columns - n in
        let placed =
          place_blanks a signatures c.rows c.columns c.order (beam_width total) total
            (page_slots n ∷ []) in
        elim (Bool-cases (total == 0)) [
          | inl none_left ↦
              let same : c ≡ r = some_inj (rw none_left at e) in
              subst (IsArranged n c.rows c.columns) same h
          | inr left ↦
              let l = length-page_slots n 0 in
              best_of-All (IsArranged n c.rows c.columns)
                (map (evaluate a signatures c.rows c.columns c.order) placed) r
                (All-map (IsArranged n c.rows c.columns)
                  (λ s. IsOrdered n s × (length s ≡ c.rows * c.columns))
                  (evaluate a signatures c.rows c.columns c.order) placed
                  (λ s q. evaluate-IsArranged c.rows c.columns c.order s q.0 q.1)
                  (place_blanks-All c.rows c.columns c.order (beam_width total) total
                    (page_slots n ∷ []) ((page_slots-pages n 0, omega (arith, l, fits)), tt)))
                (rw left at e)
        ]
      where
        some_inj : {x y : Arrangement F} → some x ≡ some y → x ≡ y
        some_inj g = ground arith
