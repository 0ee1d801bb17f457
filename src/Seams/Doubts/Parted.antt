-- ===== src/Seams/Doubts/Parted.antt =====
-- _blank_seam_conflicts against a description of a seam that blanks part.
use plt_converter.Prelude.{
  ℕ, zero, suc, ◌+◌, ◌≤◌, ◌<◌, ◌≡◌, ◌≢◌, refl, subst, Bool, true, false, ◌||◌, Option, none, some,
  List, arith, ◌==◌, length, min, ltb, Bool-cases, inl, inr,
}
use plt_converter.Seams.Arithmetic.{Arithmetic}
use plt_converter.Seams.Scores.{Facing, Edges, first_side, second_side, match_score}
use plt_converter.Seams.Evaluation.{Arrangement}
use plt_converter.Seams.Doubts.{
  dedupe, or_zero, max_number, is_rival, has_rival, is_strong_unique, Walk, walk_cell, cell_of,
  walk_line, conflicts_of_line, conflicts_of_lines, blank_conflicts,
}

module _ {F : Type 0} (a : Arithmetic F) (signatures : ℕ → Edges F) (pages : ℕ) where
  -- The facing sides of pages `p` and `q` match with 0.9 at least, on two crossings at least, and no third
  -- page matches either of them as well within 0.1.
  pub record IsStrongSeam (f : Facing) (p q : ℕ) : Type 0 where
    pub first_crossings : 2 ≤ length (dedupe a (first_side f (signatures p)))
    pub second_crossings : 2 ≤ length (dedupe a (second_side f (signatures q)))
    pub score : F
    pub scored :
        match_score a
          (dedupe a (first_side f (signatures p)))
          (dedupe a (second_side f (signatures q)))
        ≡ some score
    pub strong : a.less score (a.decimal 9 1) ≡ false
    pub unique :
        (k : ℕ)
        → k < pages
        → k ≢ p
        → k ≢ q
        → a.less (a.add (a.sub score (a.decimal 1 1)) (a.decimal 1 9)) (
            max_number a
              (or_zero a (
                match_score a
                  (dedupe a (first_side f (signatures p)))
                  (second_side f (signatures k))))
              (or_zero a (
                match_score a
                  (first_side f (signatures k))
                  (dedupe a (second_side f (signatures q))))))
          ≡ false

  has_rival-none :
      (xs ys : List F) (f : Facing) (score : F) (p q left k : ℕ)
      → ((j : ℕ) → j < k + left → j ≢ p → j ≢ q → is_rival a signatures xs ys f score j ≡ false)
      → has_rival a signatures xs ys f score p q left k ≡ false
  has_rival-none xs ys f score p q zero k h = refl
  has_rival-none xs ys f score p q (suc left) k h =
      let rest =
        has_rival-none xs ys f score p q left (k + 1) (λ j less. h j (omega (arith, less))) in
      elim (Bool-cases ((k == p) || (k == q))) [
        | inl own ↦ rw (own, rest) refl
        | inr third ↦
            let weak =
              h k (omega arith) (λ e. absurd (ground arith)) (λ e. absurd (ground arith)) in
            rw (third, weak, rest) refl
      ]

  strong-is_strong_unique :
      (f : Facing) (p q : ℕ) → IsStrongSeam f p q → is_strong_unique a signatures pages p q f ≡ true
  unfolding is_strong_unique
  strong-is_strong_unique f p q s =
      let xs = dedupe a (first_side f (signatures p)) in
      let ys = dedupe a (second_side f (signatures q)) in
      let m = s.first_crossings in
      let n = s.second_crossings in
      let many : ltb (min (length xs) (length ys)) 2 ≡ false = ground arith in
      let alone =
        has_rival-none xs ys f s.score p q pages 0 (λ j less. s.unique j (omega (arith, less))) in
      rw (many, s.scored, s.strong, alone) refl

  module _ (r : Arrangement F) (f : Facing) (line : ℕ) where
    abbrev cell_at : ℕ → Option ℕ
    cell_at position = cell_of a signatures r f line position

    -- `m` blanks from the position on, and page `q` behind them.
    abbrev pub IsGap : ℕ → ℕ → ℕ → Type 0
    IsGap zero position q = cell_at position ≡ some q
    IsGap (suc m) position q = (cell_at position ≡ none) × IsGap m (position + 1) q

    abbrev walked : ℕ → ℕ → Walk a signatures → ℕ
    walked k position w = (walk_line a signatures pages r f line k position w).conflicts

    walk_cell-le :
        (c : Option ℕ) (w : Walk a signatures)
        → w.conflicts ≤ (walk_cell a signatures pages f c w).conflicts
    walk_cell-le none w = omega arith
    walk_cell-le (some q) w = ground arith

    walked-le : (k position : ℕ) (w : Walk a signatures) → w.conflicts ≤ walked k position w
    walked-le zero position w = omega arith
    walked-le (suc k) position w =
        let n = walk_cell-le (cell_at position) w in
        let m = walked-le k (position + 1) (walk_cell a signatures pages f (cell_at position) w) in
        omega (arith, n, m)

    -- A walk that has met `p` and comes to `q` over a blank counts a conflict.
    gap-conflict :
        (k position m p q : ℕ) (w : Walk a signatures)
        → m < k
        → w.previous ≡ some p
        → (w.has_blank ≡ false → 1 ≤ m)
        → IsGap m position q
        → is_strong_unique a signatures pages p q f ≡ true
        → walked k position w ≡ 0
        → ⊥
    gap-conflict zero position m p q w less met blank gap strong z = absurd (omega (arith, less))
    gap-conflict (suc k) position zero p q w less met blank gap strong z =
        let w1 = walk_cell a signatures pages f (some q) w in
        let z1 : walked k (position + 1) w1 ≡ 0 =
          subst (λ c. walked k (position + 1) (walk_cell a signatures pages f c w) ≡ 0) gap z in
        let seen : w.has_blank ≡ true = by_blank w.has_blank refl in
        let counted : w1.conflicts ≡ w.conflicts + 1 = rw (met, seen, strong) refl in
        let n = walked-le k (position + 1) w1 in absurd (omega (arith, n, counted, z1))
      where
        by_blank : (b : Bool) → w.has_blank ≡ b → w.has_blank ≡ true
        by_blank true e = e
        by_blank false e = let l = blank e in absurd (omega (arith, l))
    gap-conflict (suc k) position (suc m) p q w less met blank gap strong z =
        let w1 = walk_cell a signatures pages f none w in
        let z1 : walked k (position + 1) w1 ≡ 0 =
          subst (λ c. walked k (position + 1) (walk_cell a signatures pages f c w) ≡ 0) gap.0 z in
        let given : w1.has_blank ≡ true = rw met refl in
        gap-conflict k (position + 1) m p q w1 (omega (arith, less)) met
          (λ e. absurd (ground (arith, given, e))) gap.1 strong z1

    -- The walk comes to every page of the line.
    parted-conflict :
        (k position i here m p q : ℕ) (w : Walk a signatures)
        → here ≡ position + i
        → i + 1 + m < k
        → 1 ≤ m
        → cell_at here ≡ some p
        → IsGap m (here + 1) q
        → is_strong_unique a signatures pages p q f ≡ true
        → walked k position w ≡ 0
        → ⊥
    parted-conflict zero position i here m p q w at less blank page gap strong z =
        absurd (omega (arith, less))
    parted-conflict (suc k) position zero here m p q w at less blank page gap strong z =
        let e : here ≡ position = omega (arith, at) in
        let w1 = walk_cell a signatures pages f (some p) w in
        let z1 : walked k (position + 1) w1 ≡ 0 =
          subst (λ c. walked k (position + 1) (walk_cell a signatures pages f c w) ≡ 0)
            (subst (λ x. cell_at x ≡ some p) e page) z in
        gap-conflict k (position + 1) m p q w1 (omega (arith, less)) refl (λ _. blank)
          (subst (λ x. IsGap m (x + 1) q) e gap) strong z1
    parted-conflict (suc k) position (suc i) here m p q w at less blank page gap strong z =
        parted-conflict k (position + 1) i here m p q
          (walk_cell a signatures pages f (cell_at position) w) (omega (arith, at))
          (omega (arith, less)) blank page gap strong z

  -- In a line of the arrangement: a page, one blank at least, and a page that it has a strong seam with.
  pub record IsParted (r : Arrangement F) (f : Facing) (lines line_length : ℕ) : Type 0 where
    pub line : ℕ
    pub position : ℕ
    pub blanks : ℕ
    pub first : ℕ
    pub second : ℕ
    pub line_inside : line < lines
    pub inside : position + 1 + blanks < line_length
    pub some_blank : 1 ≤ blanks
    pub first_page : cell_of a signatures r f line position ≡ some first
    pub gap : IsGap r f line blanks (position + 1) second
    pub seam : IsStrongSeam f first second

  lines-conflicts :
      (r : Arrangement F) (f : Facing) (line_length k line t here : ℕ)
      → here ≡ line + t
      → t < k
      → conflicts_of_lines a signatures pages r f line_length k line ≡ 0
      → conflicts_of_line a signatures pages r f here line_length ≡ 0
  lines-conflicts r f line_length zero line t here at less z = absurd (omega (arith, less))
  lines-conflicts r f line_length (suc k) line zero here at less z =
      let e : here ≡ line = omega (arith, at) in rw e (omega (arith, z))
  lines-conflicts r f line_length (suc k) line (suc t) here at less z =
      lines-conflicts r f line_length k (line + 1) t here (omega (arith, at)) (omega (arith, less))
        (omega (arith, z))

  unparted :
      (r : Arrangement F) (f : Facing) (lines line_length : ℕ)
      → conflicts_of_lines a signatures pages r f line_length lines 0 ≡ 0
      → ¬ IsParted r f lines line_length
  unparted r f lines line_length z s =
      parted-conflict r f s.line line_length 0 s.position s.position s.blanks s.first s.second _
        (omega arith) s.inside s.some_blank s.first_page s.gap
        (strong-is_strong_unique f s.first s.second s.seam)
        (lines-conflicts r f line_length lines 0 s.line s.line (omega arith) s.line_inside z)

  pub blank_conflicts-unparted :
      (r : Arrangement F)
      → blank_conflicts a signatures pages r ≡ 0
      → (¬ IsParted r Facing.across r.rows r.columns) × (¬ IsParted r Facing.down r.columns r.rows)
  unfolding blank_conflicts
  blank_conflicts-unparted r z = (
    unparted r Facing.across r.rows r.columns (omega (arith, z)),
    unparted r Facing.down r.columns r.rows (omega (arith, z)),
  )
