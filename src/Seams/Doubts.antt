-- ===== src/Seams/Doubts.antt =====
-- What speaks against a layout: _blank_seam_conflicts, _strong_unique_seam, _has_competing_layout and
-- _layout_identity, with _dedupe and _page_at.
use plt_converter.Prelude.{
  ℕ, zero, suc, ◌+◌, min, Bool, true, false, not, ◌&&◌, ◌||◌, Option, none, some, List, [], ◌∷◌,
  ◌++◌, ◌==◌, ltb, if◌then◌else◌, length, exists_where,
}
use plt_converter.Seams.Arithmetic.{Arithmetic}
use plt_converter.Seams.Scores.{
  Facing, Edges, first_side, second_side, Order, slot_index, match_score,
}
use plt_converter.Seams.Evaluation.{Arrangement, slot_at, blank_count}
use plt_converter.Seams.Blanks.{same_slots}
pub mod Parted
pub mod Rivals

-- _page_at
abbrev pub page_at : List (Option ℕ) → ℕ → ℕ → Order → ℕ → ℕ → Option ℕ
page_at slots rows columns order row column =
    slot_at slots (slot_index rows columns order row column)

-- _layout_identity: the slots as they are seen, row by row.
abbrev pub visual_row : List (Option ℕ) → ℕ → ℕ → Order → ℕ → ℕ → ℕ → List (Option ℕ)
visual_row slots rows columns order row zero column = []
visual_row slots rows columns order row (suc k) column =
    page_at slots rows columns order row column
    ∷ visual_row slots rows columns order row k (column + 1)

abbrev pub visual_rows : List (Option ℕ) → ℕ → ℕ → Order → ℕ → ℕ → List (Option ℕ)
visual_rows slots rows columns order zero row = []
visual_rows slots rows columns order (suc k) row =
    visual_row slots rows columns order row columns 0
    ++ visual_rows slots rows columns order k (row + 1)

pub record Identity : Type 0 where
  pub rows : ℕ
  pub columns : ℕ
  pub visual : List (Option ℕ)

abbrev pub same_identity : Identity → Identity → Bool
same_identity x y = (x.rows == y.rows) && (x.columns == y.columns) && same_slots x.visual y.visual

module _ {F : Type 0} (a : Arithmetic F) where
  unfoldable pub identity_of : Arrangement F → Identity
  identity_of r = record {
    rows = r.rows;
    columns = r.columns;
    visual = visual_rows r.slots r.rows r.columns r.order r.rows 0;
  }

  -- sorted(values)
  abbrev pub insert_value : F → List F → List F
  insert_value x [] = x ∷ []
  insert_value x (y ∷ ys) =
      let later = y ∷ insert_value x ys in if a.less y x then later else x ∷ y ∷ ys

  abbrev pub sort_values : List F → List F
  sort_values [] = []
  sort_values (x ∷ xs) = insert_value x (sort_values xs)

  -- The values that are more than DEDUP_TOLERANCE_PT from the last one kept.
  abbrev pub dedupe_from : F → List F → List F
  dedupe_from last [] = []
  dedupe_from last (x ∷ xs) =
      let kept = a.less (a.decimal 8 1) (a.magnitude (a.sub x last)) in
      let rest = dedupe_from (if kept then x else last) xs in if kept then x ∷ rest else rest

  abbrev pub dedupe_sorted : List F → List F
  dedupe_sorted [] = []
  dedupe_sorted (x ∷ xs) = x ∷ dedupe_from x xs

  -- _dedupe
  unfoldable pub dedupe : List F → List F
  dedupe values = dedupe_sorted (sort_values values)

  -- `_match_score(...) or 0.0`
  abbrev pub or_zero : Option F → F
  or_zero none = a.of_nat 0
  or_zero (some s) = s

  abbrev pub max_number : F → F → F
  max_number x y = if a.less x y then y else x

  module _ (signatures : ℕ → Edges F) where
    -- A third page that matches nearly as well.
    abbrev pub is_rival : List F → List F → Facing → F → ℕ → Bool
    is_rival xs ys f score k =
        let forward = or_zero (match_score a xs (second_side f (signatures k))) in
        let backward = or_zero (match_score a (first_side f (signatures k)) ys) in
        a.less (a.add (a.sub score (a.decimal 1 1)) (a.decimal 1 9)) (max_number forward backward)

    -- The pages from `k` on, `left` of them.
    abbrev pub has_rival : List F → List F → Facing → F → ℕ → ℕ → ℕ → ℕ → Bool
    has_rival xs ys f score p q zero k = false
    has_rival xs ys f score p q (suc left) k =
        (not ((k == p) || (k == q)) && is_rival xs ys f score k)
        || has_rival xs ys f score p q left (k + 1)

    abbrev pub is_unrivalled : ℕ → List F → List F → Facing → ℕ → ℕ → Option F → Bool
    is_unrivalled pages xs ys f p q none = false
    is_unrivalled pages xs ys f p q (some score) =
        if a.less score (a.decimal 9 1) then false else not (has_rival xs ys f score p q pages 0)

    -- _strong_unique_seam, `pages` being the number of signatures
    unfoldable pub is_strong_unique : ℕ → ℕ → ℕ → Facing → Bool
    unfolding dedupe match_score
    is_strong_unique pages p q f =
        let xs = dedupe (first_side f (signatures p)) in
        let ys = dedupe (second_side f (signatures q)) in
        if ltb (min (length xs) (length ys)) 2
        then false
        else is_unrivalled pages xs ys f p q (match_score a xs ys)

    -- The walk along one row or column: the last page, whether a blank came after it, the conflicts.
    pub record Walk : Type 0 where
      pub previous : Option ℕ
      pub has_blank : Bool
      pub conflicts : ℕ

    abbrev pub is_conflict : ℕ → Facing → Option ℕ → Bool → ℕ → Bool
    is_conflict pages f none blank q = false
    is_conflict pages f (some p) blank q = blank && is_strong_unique pages p q f

    abbrev pub is_given : Option ℕ → Bool
    is_given none = false
    is_given (some p) = true

    abbrev pub walk_cell : ℕ → Facing → Option ℕ → Walk → Walk
    walk_cell pages f none w = record w { has_blank = is_given w.previous }
    walk_cell pages f (some q) w = record {
      previous = some q;
      has_blank = false;
      conflicts =
          if is_conflict pages f w.previous w.has_blank q then w.conflicts + 1 else w.conflicts;
    }

    abbrev pub cell_of : Arrangement F → Facing → ℕ → ℕ → Option ℕ
    cell_of r Facing.across line position = page_at r.slots r.rows r.columns r.order line position
    cell_of r Facing.down line position = page_at r.slots r.rows r.columns r.order position line

    abbrev pub walk_line : ℕ → Arrangement F → Facing → ℕ → ℕ → ℕ → Walk → Walk
    walk_line pages r f line zero position w = w
    walk_line pages r f line (suc k) position w =
        walk_line pages r f line k (position + 1) (walk_cell pages f (cell_of r f line position) w)

    abbrev pub conflicts_of_line : ℕ → Arrangement F → Facing → ℕ → ℕ → ℕ
    conflicts_of_line pages r f line line_length =
        (walk_line pages r f line line_length 0
          (record { previous = none; has_blank = false; conflicts = 0 })).conflicts

    abbrev pub conflicts_of_lines : ℕ → Arrangement F → Facing → ℕ → ℕ → ℕ → ℕ
    conflicts_of_lines pages r f line_length zero line = 0
    conflicts_of_lines pages r f line_length (suc k) line =
        conflicts_of_line pages r f line line_length
        + conflicts_of_lines pages r f line_length k (line + 1)

    -- _blank_seam_conflicts
    unfoldable pub blank_conflicts : ℕ → Arrangement F → ℕ
    unfolding is_strong_unique
    blank_conflicts pages r =
        conflicts_of_lines pages r Facing.across r.columns r.rows 0
        + conflicts_of_lines pages r Facing.down r.rows r.columns 0

  abbrev pub at_least : F → F → Bool
  at_least x y = not (a.less x y)

  abbrev pub ratio : ℕ → ℕ → F
  ratio m n = a.div (a.of_nat m) (a.of_nat n)

  -- A candidate with enough evidence, no more blanks, and nearly the same seams.
  abbrev pub is_competitor : Arrangement F → Arrangement F → Bool
  is_competitor best c =
      let slack = a.decimal 2 2 in
      if ltb (blank_count a best) (blank_count a c)
      then false
      else if ltb c.evidence 4
          || a.less (a.of_nat c.evidence) (a.mul (a.of_nat best.evidence) (a.decimal 9 1))
      then false
      else at_least (a.of_nat c.matched) (a.mul (a.of_nat best.matched) (a.decimal 9 1))
        && at_least c.confidence (a.sub best.confidence slack)
        && at_least (ratio c.matched c.evidence) (a.sub (ratio best.matched best.evidence) slack)
        && at_least (ratio c.perfect c.evidence) (a.sub (ratio best.perfect best.evidence) slack)

  -- The loop of _has_competing_layout; `seen` holds the identities met.
  abbrev pub competes : Arrangement F → List (Arrangement F) → List Identity → Bool
  competes best [] seen = false
  competes best (c ∷ cs) seen =
      let met = exists_where (same_identity (identity_of c)) seen in
      let later = competes best cs (if met then seen else identity_of c ∷ seen) in
      if met then later else if is_competitor best c then true else later

  -- _has_competing_layout
  unfoldable pub has_competing : List (Arrangement F) → Arrangement F → Bool
  unfolding identity_of
  has_competing candidates best =
      if ltb best.evidence 4 then false else competes best candidates (identity_of best ∷ [])
