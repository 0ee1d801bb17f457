-- ===== src/Seams/Grids.antt =====
-- _candidate_grids.
use plt_converter.Prelude.{
  ℕ, zero, suc, ◌+◌, ◌-◌, ◌*◌, ◌/◌, ◌≤◌, ◌<◌, ◌≡◌, min, max, Bool, true, ◌&&◌, List, [], ◌∷◌, ◌++◌,
  ◌==◌, leb, if◌then◌else◌, exists_where, Bool-cases, inl, inr, arith, All, All-snoc, dec_lt,
}

pub record Grid : Type 0 where
  pub rows : ℕ
  pub columns : ℕ

-- MAX_GRID_SIZE
abbrev pub max_grid_size : ℕ
max_grid_size = 24

abbrev pub is_grid : ℕ → ℕ → Grid → Bool
is_grid r c g = (g.rows == r) && (g.columns == c)

abbrev pub has_grid : ℕ → ℕ → List Grid → Bool
has_grid r c gs = exists_where (is_grid r c) gs

-- The number of blanks that a grid leaves is neither negative nor too large.
abbrev pub fits : ℕ → ℕ → ℕ → ℕ → Bool
fits n blanks r c = leb n (r * c) && leb (r * c) (n + blanks)

-- One pair: what was seen is what was yielded.
abbrev pub add_grid : ℕ → ℕ → ℕ → ℕ → List Grid → List Grid
add_grid n blanks r c seen =
    if fits n blanks r c
    then if has_grid r c seen then seen else seen ++ record { rows = r; columns = c } ∷ []
    else seen

-- The columns c, c + 1, ..., `k` of them.
abbrev pub add_columns : ℕ → ℕ → ℕ → ℕ → ℕ → List Grid → List Grid
add_columns n blanks r zero c seen = seen
add_columns n blanks r (suc k) c seen =
    add_columns n blanks r k (c + 1) (add_grid n blanks r c seen)

-- math.ceil(page_count / rows)
abbrev pub minimum_columns : ℕ → ℕ → ℕ
minimum_columns n r = (n + r - 1) / r

abbrev pub first_column : ℕ → ℕ → ℕ
first_column n r = max 1 (minimum_columns n r)

abbrev pub maximum_columns : ℕ → ℕ → ℕ → ℕ
maximum_columns n blanks r = min max_grid_size ((n + blanks) / r)

-- The rows r, r + 1, ..., `k` of them.
abbrev pub add_rows : ℕ → ℕ → ℕ → ℕ → List Grid → List Grid
add_rows n blanks zero r seen = seen
add_rows n blanks (suc k) r seen = add_rows n blanks k (r + 1) (
    add_columns n blanks r (maximum_columns n blanks r + 1 - first_column n r) (first_column n r)
      seen)

-- _candidate_grids
unfoldable pub candidate_grids : ℕ → ℕ → List Grid
candidate_grids n blanks = add_rows n blanks max_grid_size 1 []

-- A grid of at most 24 rows and columns that holds the pages with few enough blanks.
pub record IsCandidate (n blanks : ℕ) (g : Grid) : Type 0 where
  pub some_rows : 1 ≤ g.rows
  pub few_rows : g.rows ≤ max_grid_size
  pub some_columns : 1 ≤ g.columns
  pub few_columns : g.columns ≤ max_grid_size
  pub holds : n ≤ g.rows * g.columns
  pub blank : g.rows * g.columns ≤ n + blanks

module _ (n blanks : ℕ) where
  add_grid-All :
      (r c : ℕ) (gs : List Grid)
      → 1 ≤ r
      → r ≤ max_grid_size
      → 1 ≤ c
      → c ≤ max_grid_size
      → All (IsCandidate n blanks) gs
      → All (IsCandidate n blanks) (add_grid n blanks r c gs)
  add_grid-All r c gs r1 r2 c1 c2 a = elim (Bool-cases (fits n blanks r c)) [
    | inr no_fit ↦ rw no_fit a
    | inl fit ↦ elim (Bool-cases (has_grid r c gs)) [
      | inl again ↦ rw (fit, again) a
      | inr new ↦
          rw (fit, new)
            (All-snoc (IsCandidate n blanks) gs (record { rows = r; columns = c }) a
              (record {
                some_rows = r1;
                few_rows = r2;
                some_columns = c1;
                few_columns = c2;
                holds = ground arith;
                blank = ground arith;
              }))
    ]
  ]

  add_columns-All :
      (r k c : ℕ) (gs : List Grid)
      → 1 ≤ r
      → r ≤ max_grid_size
      → 1 ≤ c
      → c + k ≤ max_grid_size + 1
      → All (IsCandidate n blanks) gs
      → All (IsCandidate n blanks) (add_columns n blanks r k c gs)
  add_columns-All r zero c gs r1 r2 c1 c2 a = a
  add_columns-All r (suc k) c gs r1 r2 c1 c2 a =
      add_columns-All r k (c + 1) (add_grid n blanks r c gs) r1 r2 (omega arith) (omega arith)
        (add_grid-All r c gs r1 r2 c1 (omega arith) a)

  add_rows-All :
      (k r : ℕ) (gs : List Grid)
      → 1 ≤ r
      → r + k ≤ max_grid_size + 1
      → All (IsCandidate n blanks) gs
      → All (IsCandidate n blanks) (add_rows n blanks k r gs)
  add_rows-All zero r gs r1 r2 a = a
  add_rows-All (suc k) r gs r1 r2 a =
      add_rows-All k (r + 1) _ (omega arith) (omega arith)
        (by_range (first_column n r) (maximum_columns n blanks r) (omega arith) (omega arith))
    where
      by_range :
          (lo hi : ℕ)
          → 1 ≤ lo
          → hi ≤ max_grid_size
          → All (IsCandidate n blanks) (add_columns n blanks r (hi + 1 - lo) lo gs)
      by_range lo hi l h = elim (dec_lt hi lo) [
        | yes none_left ↦ let e : hi + 1 - lo ≡ 0 = omega arith in rw e a
        | no left ↦ add_columns-All r (hi + 1 - lo) lo gs r1 (omega arith) l (omega arith) a
      ]

  -- What is seen stays.
  module _ (r c : ℕ) where
    snoc-has_grid :
        (gs : List Grid) (g : Grid) → has_grid r c gs ≡ true → has_grid r c (gs ++ g ∷ []) ≡ true
    snoc-has_grid [] g h = absurd (ground arith)
    snoc-has_grid (x ∷ gs) g h = ground (arith, snoc-has_grid gs g)

    has_grid-snoc :
        (gs : List Grid) → has_grid r c (gs ++ record { rows = r; columns = c } ∷ []) ≡ true
    has_grid-snoc [] = ground arith
    has_grid-snoc (x ∷ gs) = ground (arith, has_grid-snoc gs)

    add_grid-has_grid :
        (r' c' : ℕ) (gs : List Grid)
        → has_grid r c gs ≡ true
        → has_grid r c (add_grid n blanks r' c' gs) ≡ true
    add_grid-has_grid r' c' gs h = elim (Bool-cases (fits n blanks r' c')) [
      | inr no_fit ↦ rw no_fit h
      | inl fit ↦ elim (Bool-cases (has_grid r' c' gs)) [
        | inl again ↦ rw (fit, again) h
        | inr new ↦ rw (fit, new) (snoc-has_grid gs (record { rows = r'; columns = c' }) h)
      ]
    ]

    add_columns-has_grid :
        (r' k c' : ℕ) (gs : List Grid)
        → has_grid r c gs ≡ true
        → has_grid r c (add_columns n blanks r' k c' gs) ≡ true
    add_columns-has_grid r' zero c' gs h = h
    add_columns-has_grid r' (suc k) c' gs h =
        add_columns-has_grid r' k (c' + 1) (add_grid n blanks r' c' gs)
          (add_grid-has_grid r' c' gs h)

    add_rows-has_grid :
        (k r' : ℕ) (gs : List Grid)
        → has_grid r c gs ≡ true
        → has_grid r c (add_rows n blanks k r' gs) ≡ true
    add_rows-has_grid zero r' gs h = h
    add_rows-has_grid (suc k) r' gs h = add_rows-has_grid k (r' + 1) _ (
        add_columns-has_grid r' (maximum_columns n blanks r' + 1 - first_column n r')
          (first_column n r') gs h)

    added_grid :
        (gs : List Grid) → fits n blanks r c ≡ true → has_grid r c (add_grid n blanks r c gs) ≡ true
    added_grid gs fit = elim (Bool-cases (has_grid r c gs)) [
      | inl again ↦ rw (fit, again) again
      | inr new ↦ rw (fit, new) (has_grid-snoc gs)
    ]

    added_columns :
        (k c' : ℕ) (gs : List Grid)
        → fits n blanks r c ≡ true
        → c' ≤ c
        → c < c' + k
        → has_grid r c (add_columns n blanks r k c' gs) ≡ true
    added_columns zero c' gs fit lo hi = absurd (omega arith)
    added_columns (suc k) c' gs fit lo hi = elim (dec_lt c' c) [
      | yes later ↦
          added_columns k (c' + 1) (add_grid n blanks r c' gs) fit (omega arith) (omega arith)
      | no here ↦
          let e : c' ≡ c = omega arith in
          rw e (add_columns-has_grid r k (c + 1) _ (added_grid gs fit))
    ]

    minimum_columns-le : 1 ≤ r → n ≤ r * c → minimum_columns n r ≤ c
    minimum_columns-le r1 h = grind arith

    le-maximum : 1 ≤ r → r * c ≤ n + blanks → c ≤ (n + blanks) / r
    le-maximum r1 h = grind arith

    added_rows :
        (k r' : ℕ) (gs : List Grid)
        → IsCandidate n blanks (record { rows = r; columns = c })
        → r' ≤ r
        → r < r' + k
        → has_grid r c (add_rows n blanks k r' gs) ≡ true
    added_rows zero r' gs g lo hi = absurd (omega arith)
    added_rows (suc k) r' gs g lo hi = elim (dec_lt r' r) [
      | yes later ↦ added_rows k (r' + 1) _ g (omega arith) (omega arith)
      | no here ↦
          let e : r' ≡ r = omega arith in
          let low = minimum_columns-le g.some_rows g.holds in
          let high = le-maximum g.some_rows g.blank in
          let few = g.few_columns in
          let some_columns = g.some_columns in
          rw e (
            add_rows-has_grid k (r + 1) _ (
              added_columns (maximum_columns n blanks r + 1 - first_column n r) (first_column n r)
                gs (fits_by g) (omega (arith, low, some_columns))
                (omega (arith, low, high, few, some_columns))))
    ]
      where
        fits_by : IsCandidate n blanks (record { rows = r; columns = c }) → fits n blanks r c ≡ true
        fits_by g = ground (arith, g.holds, g.blank)

  -- The grids that are tried are, for every number of pages and of blanks allowed, exactly those of 1 to
  -- 24 rows and 1 to 24 columns that hold all the pages and leave at most that many blanks.
  pub candidate_grids-exact :
      All (IsCandidate n blanks) (candidate_grids n blanks)
      × ((g : Grid)
          → IsCandidate n blanks g
          → has_grid g.rows g.columns (candidate_grids n blanks) ≡ true)
  unfolding candidate_grids
  candidate_grids-exact = (
    add_rows-All max_grid_size 1 [] (omega arith) (omega arith) tt,
    λ g h.
        let low = h.some_rows in
        let high = h.few_rows in
        added_rows g.rows g.columns max_grid_size 1 []
          (record {
            some_rows = h.some_rows;
            few_rows = h.few_rows;
            some_columns = h.some_columns;
            few_columns = h.few_columns;
            holds = h.holds;
            blank = h.blank;
          })
          (omega (arith, low)) (omega (arith, high)),
  )
