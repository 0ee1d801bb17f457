-- ===== src/Jobs/Rows.antt =====
-- The job record of app/job_queue.py, what a handler asks of its surroundings, and what it changes.
use plt_converter.Prelude.{ℕ, Bool, true, false, Option, some, List, [], ◌==◌}
use plt_converter.Jobs.Results.{Options, Output}

pub data JobType : Type 0 where
  plt_to_pdf pdf_to_plt pdf_to_pdf pdf_preview : JobType
  other_type : ℕ → JobType

abbrev pub same_type : JobType → JobType → Bool
same_type JobType.plt_to_pdf JobType.plt_to_pdf = true
same_type JobType.pdf_to_plt JobType.pdf_to_plt = true
same_type JobType.pdf_to_pdf JobType.pdf_to_pdf = true
same_type JobType.pdf_preview JobType.pdf_preview = true
same_type (JobType.other_type m) (JobType.other_type n) = m == n
same_type _ _ = false

abbrev pub is_pdf_to_pdf : JobType → Bool
is_pdf_to_pdf JobType.pdf_to_pdf = true
is_pdf_to_pdf _ = false

abbrev pub is_preview : JobType → Bool
is_preview JobType.pdf_preview = true
is_preview _ = false

-- `user:<number>`, or any other key.
pub data UserKey : Type 0 where
  account guest : ℕ → UserKey

abbrev pub same_user : UserKey → UserKey → Bool
same_user (UserKey.account m) (UserKey.account n) = m == n
same_user (UserKey.guest m) (UserKey.guest n) = m == n
same_user _ _ = false

pub data JobStatus : Type 0 where
  billing_pending queued processing finalizing cancelling done failed cancelled expired : JobStatus

-- TERMINAL_STATUSES
abbrev pub is_terminal : JobStatus → Bool
is_terminal JobStatus.done = true
is_terminal JobStatus.failed = true
is_terminal JobStatus.cancelled = true
is_terminal JobStatus.expired = true
is_terminal _ = false

-- ACTIVE_STATUSES
abbrev pub is_active : JobStatus → Bool
is_active JobStatus.billing_pending = true
is_active JobStatus.queued = true
is_active JobStatus.processing = true
is_active JobStatus.finalizing = true
is_active JobStatus.cancelling = true
is_active _ = false

abbrev pub is_done : JobStatus → Bool
is_done JobStatus.done = true
is_done _ = false

abbrev pub is_finalizing : JobStatus → Bool
is_finalizing JobStatus.finalizing = true
is_finalizing _ = false

abbrev pub is_billing_pending : JobStatus → Bool
is_billing_pending JobStatus.billing_pending = true
is_billing_pending _ = false

abbrev pub is_cancelling : JobStatus → Bool
is_cancelling JobStatus.cancelling = true
is_cancelling _ = false

-- `{'done', 'failed', 'cancelled'}`
abbrev pub is_settled : JobStatus → Bool
is_settled JobStatus.done = true
is_settled JobStatus.failed = true
is_settled JobStatus.cancelled = true
is_settled _ = false

-- `{'billing_pending', 'queued'}`
abbrev pub is_waiting : JobStatus → Bool
is_waiting JobStatus.billing_pending = true
is_waiting JobStatus.queued = true
is_waiting _ = false

-- `{'finalizing', 'done'}`
abbrev pub is_ready : JobStatus → Bool
is_ready JobStatus.finalizing = true
is_ready JobStatus.done = true
is_ready _ = false

-- `billing_access_method`
pub data Access : Type 0 where
  ad free : Access
  other_access : ℕ → Access

abbrev pub is_granted : Option Access → Bool
is_granted (some Access.ad) = true
is_granted (some Access.free) = true
is_granted _ = false

-- The values of JOB_OUTPUT_VERSIONS, and '1'.
pub data OutputVersion : Type 0 where
  single_page_selection metric_pen_width skip_leading_cover cover_suggestion : OutputVersion
  first_version : OutputVersion
  other_version : ℕ → OutputVersion

abbrev pub output_version_of : JobType → OutputVersion
output_version_of JobType.plt_to_pdf = OutputVersion.single_page_selection
output_version_of JobType.pdf_to_plt = OutputVersion.metric_pen_width
output_version_of JobType.pdf_to_pdf = OutputVersion.skip_leading_cover
output_version_of JobType.pdf_preview = OutputVersion.cover_suggestion
output_version_of (JobType.other_type n) = OutputVersion.first_version

-- The texts that the code writes to `error`, and those of others.
pub data Message : Type 0 where
  confirm_timeout missing_output missing_billing enqueue_failed retry_failed : Message
  refusal : ℕ → Message
  raised_text : ℕ → Message

pub record Job : Type 0 where
  pub id : ℕ
  pub job_type : JobType
  pub output_version : OutputVersion
  pub fingerprint : Option ℕ
  pub user : UserKey
  pub status : JobStatus
  pub progress : ℕ
  pub filename : ℕ
  pub options : Options
  pub result_path : Option ℕ
  pub result : Option Output
  pub error : Option Message
  pub created_at : ℕ
  pub updated_at : ℕ
  pub started_at : Option ℕ
  pub finished_at : Option ℕ
  pub duration : Option ℕ
  pub deduplicated : Bool
  pub retry_count : ℕ
  pub rq_attempt : Option ℕ
  pub billing_request : Option ℕ
  pub access : Option Access
  pub billing_confirmed : Bool
  pub cancel_requested : Bool
  pub billing_released : Option Bool
  pub release_completed : Bool

-- `send_stop_job_command`
pub data StopAnswer : Type 0 where
  sent not_running broken : StopAnswer

-- The billing service's answer to a commit: status 200, another status, or no answer (503).
pub data CommitAnswer : Type 0 where
  accepted : CommitAnswer
  refused : ℕ → ℕ → CommitAnswer

-- What one call learns from the clock, RQ, the file system and the billing service.
pub record World : Type 0 where
  pub now : ℕ
  pub rq_known : Bool
  pub stop : StopAnswer
  pub enqueue : Bool
  pub file_exists : ℕ → Bool
  pub commit : CommitAnswer
  pub release : Bool

pub data Metric : Type 0 where
  metric_submitted metric_completed metric_failed metric_cancelled metric_retried : Metric
  metric_deduplicated metric_queue_full metric_layout_queue_full : Metric

-- What a handler does beside its record, in order. RQ knows a job under its id and attempt, or under
-- the bare id where the record names no attempt.
pub data Effect : Type 0 where
  leaves : Effect
  counts : Metric → Effect
  enqueues : ℕ → Effect
  dequeues : Option ℕ → Effect
  stops : Option ℕ → Effect
  commits : Effect
  releases : Bool → Effect

-- How a call ends: a record (or None), or an exception.
pub data Answer : Type 0 where
  returns : Option Job → Answer
  forbidden : Answer
  queue_rejected : ℕ → Answer
  billing_rejected : ℕ → Answer
  value_error : Answer
  raises : Answer

pub record Change : Type 0 where
  pub job : Option Job
  pub effects : List Effect
  pub answer : Answer

abbrev pub unchanged : Option Job → Answer → Change
unchanged j a = record { job = j; effects = []; answer = a }

abbrev pub becomes : Job → List Effect → Answer → Change
becomes j es a = record { job = some j; effects = es; answer = a }
