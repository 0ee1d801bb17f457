-- ===== src/Jobs/Pages.antt =====
-- normalize_pdf_page_indexes and effective_pdf_layout_max_blank_cells of
-- app/services/pdf_layout_optimizer.py, and validate_metadata_mode of app/services/pdf_to_plt.py.
pub mod Ordered
use plt_converter.Prelude.{
  ℕ, zero, suc, ◌+◌, min, max, length, Bool, true, false, not, ◌&&◌, ◌||◌, Option, none, some, List,
  [], ◌∷◌, ◌++◌, map, ◌==◌, ltb, leb, if◌then◌else◌, exists_where,
}
use plt_converter.Jobs.Results.{
  Value, same_value, is_blank, Page, LayoutStatus, is_finished, is_broken, is_underway, LayoutError,
  Layout, Output,
}
use plt_converter.Jobs.Rows.{UserKey, same_user, is_preview, is_done, Metric, Job}
use plt_converter.Jobs.Billing.{is_given}
use plt_converter.Jobs.Desk.{
  Settings, layout_capacity, Scope, Ticket, Desk, load_job, save_job, count_metric,
  enforce_rate_limit,
}

-- `page_indexes`: None, a list (`none` where an element is no int or below 0), or something else.
pub data Selection : Type 0 where
  every malformed : Selection
  chosen : List (Option ℕ) → Selection

-- list(range(n))
abbrev pub range : ℕ → List ℕ
range zero = []
range (suc n) = range n ++ n ∷ []

abbrev pub insert : ℕ → List ℕ → List ℕ
insert n [] = n ∷ []
insert n (m ∷ ms) = if leb n m then n ∷ m ∷ ms else m ∷ insert n ms

-- sorted
abbrev pub sort : List ℕ → List ℕ
sort [] = []
sort (n ∷ ns) = insert n (sort ns)

-- The indexes, unless one of them is not valid.
abbrev pub valid_indexes : ℕ → List (Option ℕ) → Option (List ℕ)
valid_indexes n [] = some []
valid_indexes n (none ∷ xs) = none
valid_indexes n (some k ∷ xs) = elim (valid_indexes n xs) [
  | none ↦ none
  | some ks ↦ if ltb k n then some (k ∷ ks) else none
]

-- `len(set(page_indexes)) != len(page_indexes)`
abbrev pub has_repeats : List ℕ → Bool
has_repeats [] = false
has_repeats (k ∷ ks) = exists_where (λ m. m == k) ks || has_repeats ks

abbrev pub sorted_unless_repeated : Option (List ℕ) → Option (List ℕ)
sorted_unless_repeated none = none
sorted_unless_repeated (some ks) = if has_repeats ks then none else some (sort ks)

-- normalize_pdf_page_indexes, `none` where it raises ValueError.
unfoldable pub normalize_page_indexes : Selection → ℕ → Option (List ℕ)
normalize_page_indexes s zero = none
normalize_page_indexes Selection.every (suc n) = some (range (suc n))
normalize_page_indexes Selection.malformed (suc n) = none
normalize_page_indexes (Selection.chosen []) (suc n) = none
normalize_page_indexes (Selection.chosen (x ∷ xs)) (suc n) =
    sorted_unless_repeated (valid_indexes (suc n) (x ∷ xs))

-- effective_pdf_layout_max_blank_cells, `none` where the variable is no int.
abbrev pub max_blank_cells : Option ℕ → ℕ
max_blank_cells none = 8
max_blank_cells (some n) = min n 8

-- `mode not in (None, '', 'original', 'current')`
abbrev pub is_known_mode : Value → Bool
is_known_mode (Value.flag b) = false
is_known_mode (Value.text n) = false
is_known_mode _ = true

-- validate_metadata_mode: whether it returns.
abbrev pub is_valid_mode : Value → Bool → Bool
is_valid_mode mode embedded = is_known_mode mode && not (embedded && is_blank mode)
