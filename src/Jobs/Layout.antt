-- ===== src/Jobs/Layout.antt =====
-- The layout suggestion of a PDF preview: enqueue_pdf_layout_suggestion of app/job_queue.py.
use plt_converter.Prelude.{
  ℕ, ◌+◌, length, Bool, true, false, not, ◌&&◌, ◌||◌, Option, none, some, List, [], ◌∷◌, ◌++◌, ◌==◌,
  ltb, leb, if◌then◌else◌,
}
use plt_converter.Jobs.Results.{
  Value, same_value, LayoutStatus, is_broken, is_underway, LayoutError, Layout, Output,
}
use plt_converter.Jobs.Rows.{UserKey, same_user, is_preview, is_done, Metric, Job}
use plt_converter.Jobs.Billing.{is_given}
use plt_converter.Jobs.Desk.{
  Settings, layout_capacity, Scope, Desk, load_job, save_job, count_metric, enforce_rate_limit,
}
use plt_converter.Jobs.Pages.{Selection, normalize_page_indexes, max_blank_cells, is_valid_mode}

-- PDF_LAYOUT_ALGORITHM_VERSION
abbrev pub layout_algorithm : ℕ
layout_algorithm = 4

abbrev pub page_total : Output → ℕ
page_total out = elim out.page_count [
  | none ↦ length out.pages
  | some n ↦ if ltb 0 n then n else length out.pages
]

abbrev pub is_version : Option ℕ → ℕ → Bool
is_version none n = false
is_version (some m) n = m == n

abbrev pub same_pages : List ℕ → List ℕ → Bool
same_pages [] [] = true
same_pages (m ∷ ms) (n ∷ ns) = (m == n) && same_pages ms ns
same_pages _ _ = false

abbrev pub is_selection : Option (List ℕ) → List ℕ → Bool
is_selection none ns = false
is_selection (some ms) ns = same_pages ms ns

-- Whether the suggestion that is kept is for the same parameters.
abbrev pub is_same_request : ℕ → Value → List ℕ → Layout → Bool
is_same_request cells mode pages l =
    is_version l.version layout_algorithm
    && is_version l.blank_cells cells
    && same_value l.mode mode
    && is_selection l.page_indexes pages

-- The keys popped and written where it is not.
abbrev pub reset_layout : ℕ → Value → List ℕ → Layout → Layout
reset_layout cells mode pages l = record l {
  suggestion = none;
  status = none;
  error = none;
  version = some layout_algorithm;
  blank_cells = some cells;
  mode = mode;
  page_indexes = some pages;
  attempt = l.attempt + 1;
}

-- update_job(result=result)
abbrev pub with_layout : ℕ → Layout → Output → Job → Job
with_layout now l out j = record j { result = some (record out { layout = l }); updated_at = now }

-- The arguments of enqueue_pdf_layout_suggestion.
pub record LayoutRequest : Type 0 where
  pub job : ℕ
  pub user : UserKey
  pub retry_failed : Bool
  pub metadata_mode : Value
  pub page_indexes : Selection

pub record LayoutIntake : Type 0 where
  pub settings : Settings
  pub blank_cells : Option ℕ
  pub rate_limit : ℕ
  pub locked : Bool
  pub queue_locked : Bool
  pub now : ℕ
  pub started : ℕ
  pub enqueue : Bool

pub data LayoutOutcome : Type 0 where
  shows : Job → LayoutOutcome
  invalid forbidden : LayoutOutcome
  rejected : ℕ → LayoutOutcome

-- The result's keys while the job waits in the queue, and when RQ did not take it.
abbrev pub queue_layout : Layout → Layout
queue_layout l = record l {
  status = some LayoutStatus.waiting;
  error = none;
  attempt = l.attempt + 1;
}

abbrev pub refuse_layout : Layout → Layout
refuse_layout l = record l {
  status = some LayoutStatus.broken;
  error = some LayoutError.not_enqueued;
}

abbrev pub push_layout : ℕ → ℕ → Desk → Desk
push_layout id n d = record d {
  layout_queue = d.layout_queue ++ record { job = id; attempt = n } ∷ [];
}

-- Under the queue's lock.
unfoldable pub place_layout : LayoutIntake → Layout → Output → Job → Desk → LayoutOutcome × Desk
place_layout i l out j d =
    let waits = with_layout i.now (queue_layout l) out j in
    if leb (layout_capacity i.settings) (length d.layout_queue + i.started)
    then (LayoutOutcome.rejected 10, count_metric Metric.metric_layout_queue_full d)
    else if i.enqueue
    then (LayoutOutcome.shows waits, push_layout j.id (l.attempt + 1) (save_job waits d))
    else (
      LayoutOutcome.rejected 3,
      save_job (with_layout i.now (refuse_layout (queue_layout l)) out waits) (save_job waits d),
    )

-- What is decided on the layout's keys, `l`; `j` is the record as it is stored by then.
unfoldable pub decide_layout :
    LayoutIntake → LayoutRequest → Layout → Output → Job → Desk → LayoutOutcome × Desk
unfolding place_layout
decide_layout i r l out j d =
    if is_given l.suggestion || is_underway l.status
    then (LayoutOutcome.shows j, d)
    else if is_broken l.status && not r.retry_failed
    then (LayoutOutcome.shows j, d)
    else let rated = enforce_rate_limit Scope.layout_scope i.rate_limit i.now r.user d in
      if not rated.0
      then (LayoutOutcome.rejected 60, rated.1)
      else if not i.queue_locked
      then (LayoutOutcome.rejected 2, rated.1)
      else place_layout i l out j rated.1

-- With the pages in order: new parameters begin a new attempt.
unfoldable pub renew_layout :
    LayoutIntake → LayoutRequest → Output → Job → Desk → Option (List ℕ) → LayoutOutcome × Desk
unfolding decide_layout
renew_layout i r out j d none = (LayoutOutcome.invalid, d)
renew_layout i r out j d (some pages) =
    let cells = max_blank_cells i.blank_cells in
    let l = reset_layout cells r.metadata_mode pages out.layout in
    if is_same_request cells r.metadata_mode pages out.layout
    then decide_layout i r out.layout out j d
    else decide_layout i r l out (with_layout i.now l out j)
        (save_job (with_layout i.now l out j) d)

unfoldable pub check_layout :
    LayoutIntake → LayoutRequest → Job → Desk → Option Output → LayoutOutcome × Desk
unfolding renew_layout
check_layout i r j d none = (LayoutOutcome.invalid, d)
check_layout i r j d (some out) =
    if is_valid_mode r.metadata_mode out.needs_choice
    then renew_layout i r out j d (normalize_page_indexes r.page_indexes (page_total out))
    else (LayoutOutcome.invalid, d)

unfoldable pub find_layout : LayoutIntake → LayoutRequest → Desk → Option Job → LayoutOutcome × Desk
unfolding check_layout
find_layout i r d none = (LayoutOutcome.invalid, d)
find_layout i r d (some j) =
    if not (is_preview j.job_type)
    then (LayoutOutcome.invalid, d)
    else if not (same_user j.user r.user)
    then (LayoutOutcome.forbidden, d)
    else if not (is_done j.status)
    then (LayoutOutcome.invalid, d)
    else check_layout i r j d j.result

-- enqueue_pdf_layout_suggestion
unfoldable pub enqueue_layout : LayoutIntake → LayoutRequest → Desk → LayoutOutcome × Desk
unfolding find_layout
enqueue_layout i r d =
    if i.locked then find_layout i r d (load_job r.job d) else (LayoutOutcome.rejected 2, d)
