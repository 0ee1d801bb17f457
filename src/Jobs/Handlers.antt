-- ===== src/Jobs/Handlers.antt =====
-- The handlers that hold a job's lock: cancel_job and confirm_job_billing of app/job_queue.py, and the
-- sections of app/tasks.py between acquire_job_lock and release.
use plt_converter.Prelude.{
  ℕ, Bool, true, false, Option, none, some, List, [], ◌∷◌, ◌++◌, ◌||◌, not, leb, if◌then◌else◌,
}
use plt_converter.Jobs.Rows.{
  JobType, same_type, UserKey, same_user, JobStatus, is_terminal, is_finalizing, is_billing_pending,
  is_cancelling, is_waiting, Message, Job, World, StopAnswer, Metric, Effect, Answer, Change,
  unchanged, becomes,
}
use plt_converter.Jobs.Billing.{persist_release, Commit, commit_successful}

-- `user_key and record['user_key'] != user_key`
abbrev pub is_foreign : Option UserKey → Job → Bool
is_foreign none j = false
is_foreign (some u) j = not (same_user j.user u)

abbrev pub is_other_type : Option JobType → Job → Bool
is_other_type none j = false
is_other_type (some t) j = not (same_type j.job_type t)

-- update_job(status='cancelled', finished_at=time.time(), progress=0)
abbrev pub cancel_now : World → Job → Job
cancel_now w j = record j {
  status = JobStatus.cancelled;
  finished_at = some w.now;
  progress = 0;
  updated_at = w.now;
}

-- The stop command, and the status and progress put back where it was not taken.
unfoldable pub stop_running : World → Job → StopAnswer → Change
stop_running w j StopAnswer.sent =
    let k = record j {
      status = JobStatus.cancelling;
      cancel_requested = true;
      progress = 0;
      updated_at = w.now;
    } in
    becomes k (Effect.stops j.rq_attempt ∷ []) (Answer.returns (some k))
stop_running w j StopAnswer.not_running =
    let k = record j { cancel_requested = false; updated_at = w.now } in
    becomes k (Effect.stops j.rq_attempt ∷ []) (Answer.returns (some k))
stop_running w j StopAnswer.broken =
    becomes (record j { cancel_requested = false; updated_at = w.now })
      (Effect.stops j.rq_attempt ∷ []) Answer.raises

unfoldable pub cancel_job : World → Option UserKey → Option JobType → Option Job → Change
unfolding stop_running
cancel_job w user expected none = unchanged none (Answer.returns none)
cancel_job w user expected (some j) =
    if is_foreign user j
    then unchanged (some j) Answer.forbidden
    else if is_other_type expected j
    then unchanged (some j) (Answer.returns none)
    else if is_terminal j.status || is_finalizing j.status
    then unchanged (some j) (Answer.returns (some j))
    else if not w.rq_known
    then becomes (cancel_now w j) (Effect.leaves ∷ []) (Answer.returns (some (cancel_now w j)))
    else if is_waiting j.status
    then becomes (cancel_now w j)
        (Effect.dequeues j.rq_attempt ∷ Effect.leaves ∷ Effect.counts Metric.metric_cancelled ∷ [])
        (Answer.returns (some (cancel_now w j)))
    else stop_running w j w.stop

unfoldable pub confirm_billing : World → UserKey → Option Job → Change
confirm_billing w user none = unchanged none Answer.forbidden
confirm_billing w user (some j) =
    if not (same_user j.user user)
    then unchanged (some j) Answer.forbidden
    else if j.billing_confirmed
    then unchanged (some j) (Answer.returns (some j))
    else if is_terminal j.status
    then unchanged (some j) (Answer.queue_rejected 2)
    else if is_billing_pending j.status
    then (let k = record j {
      status = JobStatus.queued;
      billing_confirmed = true;
      updated_at = w.now;
    } in
        becomes k [] (Answer.returns (some k)))
    else unchanged (some j) (Answer.returns (some j))

-- _update_job_progress
unfoldable pub set_progress : World → ℕ → Option Job → Change
set_progress w progress none = unchanged none (Answer.returns none)
set_progress w progress (some j) =
    if is_terminal j.status || j.cancel_requested || is_cancelling j.status
    then unchanged (some j) (Answer.returns (some j))
    else (let k = record j { progress = progress; updated_at = w.now } in
        becomes k [] (Answer.returns (some k)))

-- The end of a job that failed or was cancelled: its billing is given back and its slot is free.
-- `asked` is the record that the billing helper reads.
unfoldable pub give_back : World → Job → Job → List Effect → List Effect → Answer → Change
give_back w asked k before after answer =
    let (stored, asks) = persist_release w asked k in
    record { job = some stored; effects = before ++ asks ++ after; answer = answer }

abbrev pub fail_now : World → Message → Job → Job
fail_now w m j = record j {
  status = JobStatus.failed;
  progress = 0;
  error = some m;
  finished_at = some w.now;
  updated_at = w.now;
}

-- The tail of finalize_ready_conversion_job for an output that is not billed.
unfoldable pub fail_output : World → Bool → Message → Job → Change
unfolding give_back
fail_output w missing m j =
    let k = record (fail_now w m j) { release_completed = missing } in
    let c = give_back w k k [] (Effect.leaves ∷ []) (Answer.returns none) in
    record c { answer = Answer.returns c.job }

abbrev pub finish_done : World → Job → Job
finish_done w j = record j {
  status = JobStatus.done;
  progress = 100;
  finished_at = some w.now;
  updated_at = w.now;
}

unfoldable pub settle_output : World → Job → Commit → Change
unfolding fail_output
settle_output w j (Commit.committed es) =
    becomes (finish_done w j) (es ++ Effect.leaves ∷ []) (Answer.returns (some (finish_done w j)))
settle_output w j Commit.invalid = fail_output w false Message.missing_billing j
settle_output w j (Commit.rejected_by code text) =
    if leb 500 code
    then unchanged (some j) (Answer.billing_rejected code)
    else fail_output w false (Message.refusal text) j

abbrev pub has_file : World → Option ℕ → Bool
has_file w none = false
has_file w (some path) = w.file_exists path

-- finalize_ready_conversion_job
unfoldable pub finalize : World → Option Job → Change
unfolding settle_output commit_successful fail_output
finalize w none = unchanged none (Answer.returns none)
finalize w (some j) =
    if not (is_finalizing j.status)
    then unchanged (some j) (Answer.returns (some j))
    else if not (has_file w j.result_path)
    then fail_output w true Message.missing_output j
    else settle_output w j (commit_successful w j)
