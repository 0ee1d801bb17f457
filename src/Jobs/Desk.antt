-- ===== src/Jobs/Desk.antt =====
-- The keys of app/job_queue.py that a submission reads and writes, its limits, and the age that a
-- record may reach.
use plt_converter.Prelude.{
  ℕ, ◌+◌, ◌*◌, ◌/◌, max, Bool, true, false, not, ◌&&◌, Option, none, some, List, [], ◌∷◌, ◌==◌, ltb,
  leb, if◌then◌else◌, delete_where, exists_where, find_row, first_where,
}
use plt_converter.Jobs.Results.{Output, Page, layout_status, is_underway}
use plt_converter.Jobs.Rows.{
  is_pdf_to_pdf, is_preview, UserKey, same_user, JobStatus, is_active, is_done, is_finalizing,
  Metric, Job,
}
use plt_converter.Jobs.Billing.{is_given}

-- The environment, each variable with its default; what stands below a bound reads as the bound.
pub record Settings : Type 0 where
  pub rate_limit : ℕ
  pub user_max : ℕ
  pub queue_max : ℕ
  pub layout_queue_max : ℕ
  pub retention : ℕ
  pub job_timeout : ℕ
  pub pdf_timeout : ℕ
  pub layout_timeout : ℕ

-- A key under a user: a billing request or a fingerprint, with the job's id.
pub record Index : Type 0 where
  pub user : UserKey
  pub key : ℕ
  pub job : ℕ

-- An id in a user's set of jobs.
pub record Slot : Type 0 where
  pub user : UserKey
  pub job : ℕ

-- A counter of a scope, a user and a minute.
pub data Scope : Type 0 where
  jobs_scope layout_scope : Scope

abbrev pub same_scope : Scope → Scope → Bool
same_scope Scope.jobs_scope Scope.jobs_scope = true
same_scope Scope.layout_scope Scope.layout_scope = true
same_scope _ _ = false

pub record Rate : Type 0 where
  pub scope : Scope
  pub user : UserKey
  pub minute : ℕ
  pub times : ℕ

-- A job of an RQ queue.
pub record Ticket : Type 0 where
  pub job : ℕ
  pub attempt : ℕ

pub record Desk : Type 0 where
  pub jobs : List Job
  pub requests : List Index
  pub fingerprints : List Index
  pub slots : List Slot
  pub rates : List Rate
  pub queue : List Ticket
  pub layout_queue : List Ticket
  pub metrics : List Metric

abbrev pub load_job : ℕ → Desk → Option Job
load_job id d = find_row (λ (j : Job). j.id) id d.jobs

-- SETEX
abbrev pub save_job : Job → Desk → Desk
save_job j d = record d { jobs = j ∷ delete_where (λ (k : Job). k.id == j.id) d.jobs }

abbrev pub is_index : UserKey → ℕ → Index → Bool
is_index u k x = same_user x.user u && (x.key == k)

abbrev pub get_index : UserKey → ℕ → List Index → Option Index
get_index u k xs = first_where (is_index u k) xs

abbrev pub set_index : UserKey → ℕ → ℕ → List Index → List Index
set_index u k id xs = record { user = u; key = k; job = id } ∷ delete_where (is_index u k) xs

abbrev pub count_metric : Metric → Desk → Desk
count_metric m d = record d { metrics = m ∷ d.metrics }

abbrev pub retention_of : Settings → ℕ
retention_of c = max 60 c.retention

-- `status in {'failed', 'cancelled'}`
abbrev pub is_unfinished : JobStatus → Bool
is_unfinished JobStatus.failed = true
is_unfinished JobStatus.cancelled = true
is_unfinished _ = false

-- `billing_released is False`
abbrev pub is_unreleased : Option Bool → Bool
is_unreleased (some false) = true
is_unreleased _ = false

abbrev pub layout_capacity : Settings → ℕ
layout_capacity c = max 1 c.layout_queue_max

abbrev pub queue_capacity : Settings → ℕ
queue_capacity c = max 1 c.queue_max

abbrev pub timeout_of : Settings → Job → ℕ
timeout_of c j = max 10 (if is_pdf_to_pdf j.job_type then c.pdf_timeout else c.job_timeout)

-- job_record_ttl of a record, in seconds.
unfoldable pub job_record_ttl : Settings → Job → ℕ
job_record_ttl c j =
    if is_finalizing j.status
    then max (retention_of c) (150 * 60)
    else if is_unfinished j.status && is_given j.billing_request && is_unreleased j.billing_released
    then max (retention_of c) (150 * 60)
    else if not (is_active j.status) && not (is_underway (layout_status j.result))
    then retention_of c
    else if is_underway (layout_status j.result)
    then max (retention_of c) (layout_capacity c * max 10 c.layout_timeout * 2 + 300)
    else max (retention_of c) (queue_capacity c * timeout_of c j * 2 + 300)

abbrev pub is_rate : Scope → UserKey → ℕ → Rate → Bool
is_rate s u m r = same_scope r.scope s && same_user r.user u && (r.minute == m)

abbrev pub times_of : Option Rate → ℕ
times_of none = 0
times_of (some r) = r.times

abbrev pub rate_times : Scope → UserKey → ℕ → List Rate → ℕ
rate_times s u m rs = times_of (first_where (is_rate s u m) rs)

-- INCR
abbrev pub bump : Scope → UserKey → ℕ → List Rate → List Rate
bump s u m rs =
    record { scope = s; user = u; minute = m; times = rate_times s u m rs + 1 }
    ∷ delete_where (is_rate s u m) rs

-- enforce_rate_limit with the counter that it leaves; the clock counts milliseconds.
unfoldable pub enforce_rate_limit : Scope → ℕ → ℕ → UserKey → Desk → Bool × Desk
enforce_rate_limit s limit now u d =
    let minute = now / 60000 in
    (
      leb (rate_times s u minute d.rates + 1) (max 1 limit),
      record d { rates = bump s u minute d.rates },
    )

abbrev pub is_active_job : Option Job → Bool
is_active_job none = false
is_active_job (some j) = is_active j.status

-- The loop of enforce_user_capacity: what stays in the set, and how many of it are active.
abbrev pub sweep_slots : UserKey → Desk → List Slot → List Slot × ℕ
sweep_slots u d [] = ([], 0)
sweep_slots u d (s ∷ ss) =
    let rest = sweep_slots u d ss in
    if same_user s.user u
    then if is_active_job (load_job s.job d) then (s ∷ rest.0, rest.1 + 1) else rest
    else (s ∷ rest.0, rest.1)

unfoldable pub enforce_user_capacity : Settings → UserKey → Desk → Bool × Desk
enforce_user_capacity c u d =
    let swept = sweep_slots u d d.slots in
    (ltb swept.1 (max 1 c.user_max), record d { slots = swept.0 })

-- completed_result_available on the files of the job's folder.
pub record Files : Type 0 where
  pub exists : ℕ → Bool
  pub thumbnail : ℕ → ℕ → Bool
  pub preview : ℕ → ℕ → Bool
  pub source : ℕ → Option ℕ

abbrev pub has_page : Files → Job → Page → Bool
has_page f j p =
    f.thumbnail j.id p.index && elim p.editor_preview [ none ↦ true | some n ↦ f.preview j.id n ]

abbrev pub has_pages : Files → Job → List Page → Bool
has_pages f j [] = false
has_pages f j (p ∷ ps) = not (exists_where (λ q. not (has_page f j q)) (p ∷ ps))

abbrev pub pages_of : Option Output → List Page
pages_of none = []
pages_of (some out) = out.pages

abbrev pub has_output : Files → Option ℕ → Bool
has_output f none = false
has_output f (some path) = f.exists path

unfoldable pub completed_result_available : Files → Job → Bool
completed_result_available f j =
    if not (is_done j.status)
    then false
    else if is_preview j.job_type
    then has_pages f j (pages_of j.result)
    else has_output f j.result_path
