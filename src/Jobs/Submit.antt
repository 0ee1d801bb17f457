-- ===== src/Jobs/Submit.antt =====
-- submit_job of app/job_queue.py.
use plt_converter.Prelude.{
  ℕ, ◌+◌, length, Bool, true, false, not, ◌&&◌, ◌||◌, Option, none, some, List, [], ◌∷◌, ◌++◌, ◌==◌,
  ltb, leb, if◌then◌else◌, delete_where, exists_where,
}
use plt_converter.Jobs.Results.{Value, is_blank, is_false, Options}
use plt_converter.Jobs.Rows.{
  JobType, OutputVersion, output_version_of, UserKey, same_user, JobStatus, is_active, is_done,
  Access, Message, Metric, Job,
}
use plt_converter.Jobs.Billing.{is_given}
use plt_converter.Jobs.Desk.{
  Settings, Index, Slot, Scope, Ticket, Desk, load_job, save_job, get_index, set_index, is_index,
  count_metric, enforce_rate_limit, enforce_user_capacity, is_active_job, queue_capacity, Files,
  completed_result_available,
}
use plt_converter.Jobs.Matching.{
  Submission, Intake, takes_metadata_mode, takes_outer_edges, drop_blank, drop_false,
  candidate_options, candidate, is_job_of, matches_legacy, matches_billing_submission,
}
pub mod Frames
pub mod Entries
pub mod Limits
pub mod Repeats

-- How a submission ends.
pub data Outcome : Type 0 where
  accepts : Job → Outcome
  conflict : Outcome
  rejected : ℕ → Outcome
  enqueue_error : Outcome

abbrev pub mark_repeated : Job → Job
mark_repeated j = record j { deduplicated = true }

-- A request that already names a job that is active or whose result can be had.
abbrev pub is_standing : Intake → Option Job → Option Job
is_standing i none = none
is_standing i (some j) =
    if is_active j.status || completed_result_available i.files j then some j else none

abbrev pub answer_standing : Option Bool → Job → Outcome
answer_standing (some true) j = Outcome.accepts (mark_repeated j)
answer_standing _ j = Outcome.conflict

abbrev pub job_of : Desk → Option Index → Option Job
job_of d none = none
job_of d (some x) = load_job x.job d

abbrev pub requested_job : UserKey → Option ℕ → Desk → Option Job
requested_job user none d = none
requested_job user (some request) d = job_of d (get_index user request d.requests)

-- The billing key of a request that names no such job is deleted.
unfoldable pub drop_request : UserKey → Option ℕ → Desk → Desk
drop_request user none d = d
drop_request user (some request) d = record d {
  requests = delete_where (is_index user request) d.requests;
}

unfoldable pub set_request : UserKey → Option ℕ → ℕ → Desk → Desk
set_request user none id d = d
set_request user (some request) id d = record d { requests = set_index user request id d.requests }

abbrev pub same_request : Option ℕ → Option ℕ → Bool
same_request none _ = true
same_request (some m) (some n) = m == n
same_request (some m) none = false

-- The new record.
abbrev pub new_job : Intake → Submission → Job
new_job i s = record {
  id = i.fresh;
  job_type = s.job_type;
  output_version = output_version_of s.job_type;
  fingerprint =
      some (i.digest s.job_type (output_version_of s.job_type) s.filename s.source s.options);
  user = s.user;
  status = if is_given s.request then JobStatus.billing_pending else JobStatus.queued;
  progress = 0;
  filename = s.filename;
  options = s.options;
  result_path = none;
  result = none;
  error = none;
  created_at = i.now;
  updated_at = i.now;
  started_at = none;
  finished_at = none;
  duration = none;
  deduplicated = false;
  retry_count = 0;
  rq_attempt = some 0;
  billing_request = s.request;
  access = s.access;
  billing_confirmed = not (is_given s.request);
  cancel_requested = false;
  billing_released = none;
  release_completed = false;
}

abbrev pub fingerprint_of : Intake → Submission → ℕ
fingerprint_of i s =
    i.digest s.job_type (output_version_of s.job_type) s.filename s.source s.options

abbrev pub is_slot : UserKey → ℕ → Slot → Bool
is_slot u id x = same_user x.user u && (x.job == id)

-- SADD
abbrev pub add_slot : UserKey → ℕ → List Slot → List Slot
add_slot u id xs = if exists_where (is_slot u id) xs then xs else record { user = u; job = id } ∷ xs

-- The record, its fingerprint and its slot, before RQ is called.
abbrev pub admit : Intake → Submission → Desk → Desk
admit i s d = record (save_job (new_job i s) d) {
  fingerprints = set_index s.user (fingerprint_of i s) i.fresh d.fingerprints;
  slots = add_slot s.user i.fresh d.slots;
}

-- update_job(status='failed', ...)
abbrev pub failed_entry : Intake → Submission → Job
failed_entry i s = record (new_job i s) {
  status = JobStatus.failed;
  error = some Message.enqueue_failed;
  finished_at = some i.now;
}

abbrev pub refuse_entry : Intake → Submission → Desk → Desk
refuse_entry i s d = record (save_job (failed_entry i s) d) {
  slots = delete_where (is_slot s.user i.fresh) d.slots;
}

-- enqueue_call
abbrev pub push : Intake → Desk → Desk
push i a = record a { queue = a.queue ++ record { job = i.fresh; attempt = 0 } ∷ [] }

-- Whether RQ took the call.
unfoldable pub called : Intake → Submission → Desk → Bool → Outcome × Desk
called i s a true = (
  Outcome.accepts (new_job i s),
  count_metric Metric.metric_submitted (set_request s.user s.request i.fresh (push i a)),
)
called i s a false = (Outcome.enqueue_error, refuse_entry i s a)

abbrev pub enter : Intake → Submission → Desk → Outcome × Desk
enter i s d = called i s (admit i s d) i.enqueue

-- `load['queued'] + load['processing'] >= load['capacity']`
abbrev pub is_full : Intake → Desk → Bool
is_full i d = leb (queue_capacity i.settings) (length d.queue + i.started)

-- The three limits, in order.
unfoldable pub submit_new : Intake → Submission → Desk → Outcome × Desk
submit_new i s d =
    let rated = enforce_rate_limit Scope.jobs_scope i.settings.rate_limit i.now s.user d in
    if not rated.0
    then (Outcome.rejected 60, rated.1)
    else let fitted = enforce_user_capacity i.settings s.user rated.1 in
      if not fitted.0
      then (Outcome.rejected 5, fitted.1)
      else if is_full i fitted.1
      then (Outcome.rejected 10, count_metric Metric.metric_queue_full fitted.1)
      else enter i s fitted.1

abbrev pub is_repeatable : Intake → Submission → Job → Bool
is_repeatable i s j =
    same_request s.request j.billing_request
    && (is_active j.status || (is_done j.status && completed_result_available i.files j))

-- The same file with the same parameters, in the job that its index names.
unfoldable pub submit_found : Intake → Submission → Desk → Option Job → Outcome × Desk
unfolding submit_new
submit_found i s d none = submit_new i s d
submit_found i s d (some j) =
    if is_repeatable i s j
    then (
      Outcome.accepts (mark_repeated j),
      count_metric Metric.metric_deduplicated (set_request s.user s.request j.id d),
    )
    else submit_new i s d

unfoldable pub submit_same : Intake → Submission → Desk → Outcome × Desk
unfolding submit_found
submit_same i s d =
    submit_found i s d (job_of d (get_index s.user (fingerprint_of i s) d.fingerprints))

-- The request names a standing job, or none.
unfoldable pub submit_standing : Intake → Submission → Desk → Option Job → Outcome × Desk
unfolding submit_same matches_billing_submission
submit_standing i s d (some j) = (answer_standing (matches_billing_submission i s d j) j, d)
submit_standing i s d none = submit_same i s (drop_request s.user s.request d)

unfoldable pub submit_job : Intake → Submission → Desk → Outcome × Desk
unfolding submit_standing
submit_job i s d =
    if not i.locked
    then (Outcome.rejected 2, d)
    else submit_standing i s d (is_standing i (requested_job s.user s.request d))
