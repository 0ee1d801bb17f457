-- ===== src/Jobs/Analysis.antt =====
-- execute_pdf_layout_suggestion of app/tasks.py: its sections under the job's lock, and the callbacks of
-- its RQ job.
use plt_converter.Prelude.{
  ℕ, Bool, true, false, not, ◌&&◌, ◌||◌, Option, none, some, List, [], ◌∷◌, ◌==◌, if◌then◌else◌,
}
use plt_converter.Jobs.Results.{Value, LayoutStatus, is_finished, LayoutError, Layout, Output}
use plt_converter.Jobs.Rows.{is_preview, Job}
use plt_converter.Jobs.Layout.{with_layout}
pub mod Fenced
pub mod Histories

abbrev pub empty_layout : Layout
empty_layout = record {
  version = none;
  blank_cells = none;
  mode = Value.null;
  page_indexes = none;
  attempt = 0;
  status = none;
  suggestion = none;
  error = none;
  started_at = none;
  finished_at = none;
}

-- `dict(record.get('result') or {})`
abbrev pub output_of : Option Output → Output
output_of (some out) = out
output_of none = record {
  path = none;
  content = 0;
  pages = [];
  page_count = none;
  needs_choice = false;
  layout = empty_layout;
}

abbrev pub layout_of : Job → Layout
layout_of j = (output_of j.result).layout

-- An analysis that goes on outside the lock, with what it has read.
pub record Run : Type 0 where
  pub attempt : ℕ
  pub mode : Value
  pub pages : Option (List ℕ)

-- How the first section ends.
pub data Start : Type 0 where
  stale : Start
  cached : ℕ → Start
  analyses : Run → Start

-- `current_attempt != expected_attempt`
abbrev pub is_stale : Option ℕ → ℕ → Bool
is_stale none current = false
is_stale (some expected) current = not (current == expected)

abbrev pub start_layout : ℕ → Layout → Layout
start_layout now l = record l {
  status = some LayoutStatus.running;
  error = none;
  started_at = some now;
}

abbrev pub run_of : Layout → Run
run_of l = record { attempt = l.attempt; mode = l.mode; pages = l.page_indexes }

abbrev pub begin_unless_cached : ℕ → Job → Layout → Option ℕ → Start × Option Job
begin_unless_cached now j l (some suggestion) = (Start.cached suggestion, some j)
begin_unless_cached now j l none =
    (Start.analyses (run_of l), some (with_layout now (start_layout now l) (output_of j.result) j))

unfoldable pub begin_analysis : ℕ → Option ℕ → Option Job → Start × Option Job
begin_analysis now expected none = (Start.stale, none)
begin_analysis now expected (some j) =
    if not (is_preview j.job_type) || is_stale expected (layout_of j).attempt
    then (Start.stale, some j)
    else begin_unless_cached now j (layout_of j) (layout_of j).suggestion

-- `if suggestion is not None`
abbrev pub or_kept : Option ℕ → Option ℕ → Option ℕ
or_kept none kept = kept
or_kept (some suggestion) kept = some suggestion

abbrev pub finish_layout : ℕ → LayoutStatus → Option ℕ → Option LayoutError → Layout → Layout
finish_layout now status suggestion error l = record l {
  status = some status;
  error = error;
  finished_at = some now;
  suggestion = or_kept suggestion l.suggestion;
}

-- _finish_pdf_layout_suggestion
unfoldable pub finish_analysis :
    ℕ → LayoutStatus → Option ℕ → Option LayoutError → Option ℕ → Option Job → Option Job
finish_analysis now status suggestion error expected none = none
finish_analysis now status suggestion error expected (some j) =
    if is_stale expected (layout_of j).attempt
    then some j
    else if is_finished (layout_of j).status && not (is_finished (some status))
    then some j
    else some (
        with_layout now (finish_layout now status suggestion error (layout_of j))
          (output_of j.result) j)

-- The end of the analysis: what optimize_pdf_layout has returned, or the text of what it raised.
pub data Analyzed : Type 0 where
  suggests : ℕ → Analyzed
  fails : LayoutError → Analyzed

unfoldable pub end_analysis : ℕ → Run → Analyzed → Option Job → Option Job
unfolding finish_analysis
end_analysis now r (Analyzed.suggests x) j =
    finish_analysis now LayoutStatus.finished (some x) none (some r.attempt) j
end_analysis now r (Analyzed.fails e) j =
    finish_analysis now LayoutStatus.broken none (some e) (some r.attempt) j

-- The RQ job that a callback gets: its arguments, and its id's parts.
pub record RqCall : Type 0 where
  pub args : List ℕ
  pub id_job : ℕ
  pub id_attempt : Option ℕ

-- _pdf_layout_job_identity
abbrev pub layout_identity : RqCall → ℕ × Option ℕ
layout_identity c = elim c.args [
  | [] ↦ (c.id_job, c.id_attempt)
  | k ∷ rest ↦ (k, elim rest [ [] ↦ c.id_attempt | n ∷ more ↦ some n ])
]

-- mark_pdf_layout_suggestion_failed and mark_pdf_layout_suggestion_stopped
unfoldable pub mark_layout : ℕ → LayoutError → RqCall → Option Job → Option Job
unfolding finish_analysis
mark_layout now e c j =
    finish_analysis now LayoutStatus.broken none (some e) (layout_identity c).1 j
