-- ===== src/Jobs/Results.antt =====
-- The `result` and `options` of a job record of app/job_queue.py, with the layout suggestion that
-- app/tasks.py keeps inside a preview's result.
use plt_converter.Prelude.{ℕ, Bool, true, false, Option, none, some, List, ◌==◌}

-- A value of `options`, or of `metadata_mode`.
pub data Value : Type 0 where
  null empty_text original current : Value
  flag : Bool → Value
  text : ℕ → Value

abbrev pub same_value : Value → Value → Bool
same_value Value.null Value.null = true
same_value Value.empty_text Value.empty_text = true
same_value Value.original Value.original = true
same_value Value.current Value.current = true
same_value (Value.flag true) (Value.flag true) = true
same_value (Value.flag false) (Value.flag false) = true
same_value (Value.text m) (Value.text n) = m == n
same_value _ _ = false

-- `in (None, '')`
abbrev pub is_blank : Value → Bool
is_blank Value.null = true
is_blank Value.empty_text = true
is_blank _ = false

-- `is False`
abbrev pub is_false : Value → Bool
is_false (Value.flag false) = true
is_false _ = false

-- The two keys that are compared by name, `none` where they are missing, and the rest.
pub record Options : Type 0 where
  pub metadata_mode : Option Value
  pub preserve_outer_edges : Option Value
  pub others : ℕ

-- `index`, and `editor_preview_name` where it is given.
pub record Page : Type 0 where
  pub index : ℕ
  pub editor_preview : Option ℕ

pub data LayoutStatus : Type 0 where
  waiting running finished broken : LayoutStatus

abbrev pub is_finished : Option LayoutStatus → Bool
is_finished (some LayoutStatus.finished) = true
is_finished _ = false

abbrev pub is_broken : Option LayoutStatus → Bool
is_broken (some LayoutStatus.broken) = true
is_broken _ = false

-- `{'queued', 'processing'}`
abbrev pub is_underway : Option LayoutStatus → Bool
is_underway (some LayoutStatus.waiting) = true
is_underway (some LayoutStatus.running) = true
is_underway _ = false

-- The texts of `layout_suggestion_error`.
pub data LayoutError : Type 0 where
  preview_expired not_enqueued analysis_stopped : LayoutError
  analysis_failed : ℕ → LayoutError

-- The keys `layout_suggestion…`; a missing attempt reads as 0, a missing mode as None.
pub record Layout : Type 0 where
  pub version : Option ℕ
  pub blank_cells : Option ℕ
  pub mode : Value
  pub page_indexes : Option (List ℕ)
  pub attempt : ℕ
  pub status : Option LayoutStatus
  pub suggestion : Option ℕ
  pub error : Option LayoutError
  pub started_at : Option ℕ
  pub finished_at : Option ℕ

-- `page_count` where it is an int.
pub record Output : Type 0 where
  pub path : Option ℕ
  pub content : ℕ
  pub pages : List Page
  pub page_count : Option ℕ
  pub needs_choice : Bool
  pub layout : Layout

abbrev pub layout_status : Option Output → Option LayoutStatus
layout_status none = none
layout_status (some out) = out.layout.status
