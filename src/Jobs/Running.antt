-- ===== src/Jobs/Running.antt =====
-- execute_job, enqueue_retry, mark_job_failed and mark_job_stopped of app/tasks.py: each section under
-- the job's lock is a function of the stored record.
use plt_converter.Prelude.{
  ℕ, ◌+◌, ◌-◌, Bool, true, false, Option, none, some, List, [], ◌∷◌, ◌++◌, ◌&&◌, ◌||◌, ltb,
  if◌then◌else◌,
}
use plt_converter.Jobs.Rows.{
  JobStatus, is_terminal, is_done, is_finalizing, is_billing_pending, is_cancelling, is_settled,
  is_ready, Message, Job, World, Metric, Effect, Answer, Change, unchanged, becomes,
}
use plt_converter.Jobs.Results.{Output}
use plt_converter.Jobs.Billing.{requires_billing, persist_release}
use plt_converter.Jobs.Handlers.{cancel_now, fail_now, finish_done, give_back}

-- `release_user_job(record)`
abbrev pub leave_if : Option Job → List Effect
leave_if none = []
leave_if (some j) = Effect.leaves ∷ []

-- The deadline of the loop that waits for the billing to be confirmed.
unfoldable pub time_out : World → Option Job → Change
unfolding give_back
time_out w none = unchanged none (Answer.returns none)
time_out w (some j) =
    if is_billing_pending j.status
    then give_back w j (record (fail_now w Message.confirm_timeout j) { progress = j.progress })
        (Effect.leaves ∷ []) [] (Answer.returns none)
    else unchanged (some j) (Answer.returns none)

-- One round of the loop: whether it goes on waiting.
pub data Wait : Type 0 where
  again proceed : Wait
  timed_out : Change → Wait

unfoldable pub wait_round : World → Bool → Option Job → Wait
unfolding time_out
wait_round w late none = Wait.proceed
wait_round w late (some j) =
    if is_billing_pending j.status
    then if late then Wait.timed_out (time_out w (some j)) else Wait.again
    else Wait.proceed

-- A cancelled run: the billing, the slot, and the counter in the sections that count.
unfoldable pub cancel_run : World → Job → List Effect → Answer → Change
unfolding give_back
cancel_run w j es answer =
    give_back w (cancel_now w j) (cancel_now w j) [] (Effect.leaves ∷ es) answer

-- The section that starts the run; it goes on with the record that it read.
unfoldable pub start_run : World → Option Job → Change
unfolding cancel_run
start_run w none = unchanged none (Answer.returns none)
start_run w (some j) =
    if is_terminal j.status
    then becomes j (Effect.leaves ∷ []) (Answer.returns none)
    else if is_finalizing j.status
    then unchanged (some j) (Answer.returns none)
    else if j.cancel_requested
    then cancel_run w j [] (Answer.returns none)
    else becomes
        (record j {
          status = JobStatus.processing;
          progress = 5;
          started_at = some w.now;
          updated_at = w.now;
        })
        [] (Answer.returns (some j))

-- The milliseconds between two clock readings.
abbrev pub elapsed : World → ℕ → ℕ
elapsed w started = w.now - started

abbrev pub billed : Option Job → Job → Bool
billed none own = requires_billing own
billed (some latest) own = requires_billing latest

-- The section behind `_execute`; `own` is the record that the run started from.
unfoldable pub finish_run : World → ℕ → Output → Job → Option Job → Change
unfolding cancel_run requires_billing
finish_run w started out own none = unchanged none (Answer.returns none)
finish_run w started out own (some j) =
    if j.cancel_requested
    then cancel_run w j [] (Answer.returns none)
    else if requires_billing j
    then becomes
        (record j {
          status = JobStatus.finalizing;
          progress = 95;
          result = some out;
          result_path = out.path;
          duration = some (elapsed w started);
          updated_at = w.now;
        })
        [] (Answer.returns (some j))
    else becomes
        (record (finish_done w j) {
          result = some out;
          result_path = out.path;
          duration = some (elapsed w started);
        })
        [] (Answer.returns (some j))

-- What follows the section for a job that is done, behind the lock.
abbrev pub count_done : Option Job → Change
count_done j = record {
  job = j;
  effects = leave_if j ++ Effect.counts Metric.metric_completed ∷ [];
  answer = Answer.returns j;
}

-- update_job(status='queued', ...) of enqueue_retry
abbrev pub requeue : World → ℕ → Job → Job
requeue w retries j = record j {
  status = JobStatus.queued;
  progress = 0;
  retry_count = retries + 1;
  rq_attempt = some (retries + 1);
  error = none;
  updated_at = w.now;
}

-- Whether RQ took the call.
unfoldable pub requeued : World → ℕ → Job → Bool → Change
unfolding give_back
requeued w retries k true =
    becomes k (Effect.enqueues (retries + 1) ∷ Effect.counts Metric.metric_retried ∷ [])
      (Answer.returns none)
requeued w retries k false =
    give_back w k (fail_now w Message.retry_failed k) []
      (Effect.leaves ∷ Effect.counts Metric.metric_failed ∷ []) (Answer.returns none)

-- enqueue_retry; without a record only the call and its counter are left.
unfoldable pub enqueue_retry : World → ℕ → Option Job → Change
unfolding requeued
enqueue_retry w retries none = record {
  job = none;
  effects =
      if w.enqueue
      then Effect.enqueues (retries + 1) ∷ Effect.counts Metric.metric_retried ∷ []
      else Effect.counts Metric.metric_failed ∷ [];
  answer = Answer.returns none;
}
enqueue_retry w retries (some j) = requeued w retries (requeue w retries j) w.enqueue

abbrev pub is_withdrawn : Job → Bool
is_withdrawn j = j.cancel_requested || is_cancelling j.status

abbrev pub retries_of : Option Job → ℕ
retries_of none = 0
retries_of (some j) = j.retry_count

-- `except (OSError, TimeoutError, JobTimeoutException)`; a run that fails for good raises on.
unfoldable pub fail_transient : World → ℕ → Message → Job → Option Job → Change
unfolding cancel_run enqueue_retry give_back
fail_transient w started m own none = enqueue_retry w 0 none
fail_transient w started m own (some j) =
    if is_ready j.status
    then unchanged (some j) (Answer.returns (some j))
    else if is_withdrawn j
    then cancel_run w j (Effect.counts Metric.metric_cancelled ∷ []) (Answer.returns none)
    else if ltb j.retry_count 1
    then enqueue_retry w j.retry_count (some j)
    else give_back w j (record (fail_now w m j) { duration = some (elapsed w started) })
        (Effect.leaves ∷ Effect.counts Metric.metric_failed ∷ []) [] Answer.raises

-- `except Exception`
unfoldable pub fail_run : World → ℕ → Message → Job → Option Job → Change
unfolding give_back
fail_run w started m own none = record {
  job = none;
  effects = Effect.counts Metric.metric_failed ∷ (persist_release w own own).1;
  answer = Answer.raises;
}
fail_run w started m own (some j) =
    if is_ready j.status
    then unchanged (some j) (Answer.returns (some j))
    else if is_withdrawn j
    then (let k = record (cancel_now w j) { error = none; duration = some (elapsed w started) } in
        give_back w k k (Effect.leaves ∷ Effect.counts Metric.metric_cancelled ∷ []) []
          Answer.raises)
    else give_back w j (record (fail_now w m j) { duration = some (elapsed w started) })
        (Effect.leaves ∷ Effect.counts Metric.metric_failed ∷ []) [] Answer.raises

-- mark_job_failed; `transient` is the test on the exception's class.
unfoldable pub mark_failed : World → Bool → Message → Option Job → Change
unfolding cancel_run enqueue_retry give_back
mark_failed w transient m none = unchanged none (Answer.returns none)
mark_failed w transient m (some j) =
    if is_settled j.status
    then becomes j (Effect.leaves ∷ []) (Answer.returns none)
    else if is_finalizing j.status
    then unchanged (some j) (Answer.returns none)
    else if is_withdrawn j
    then cancel_run w j (Effect.counts Metric.metric_cancelled ∷ []) (Answer.returns none)
    else if transient && ltb j.retry_count 1
    then enqueue_retry w j.retry_count (some j)
    else give_back w j (fail_now w m j) (Effect.leaves ∷ Effect.counts Metric.metric_failed ∷ []) []
        (Answer.returns none)

-- The section of mark_job_stopped; where it returns the record, count_stopped follows behind the lock.
unfoldable pub mark_stopped : World → Option Job → Change
unfolding give_back
mark_stopped w none = unchanged none (Answer.returns none)
mark_stopped w (some j) =
    if is_settled j.status
    then becomes j (Effect.leaves ∷ []) (Answer.returns none)
    else if is_finalizing j.status
    then unchanged (some j) (Answer.returns none)
    else give_back w (cancel_now w j) (cancel_now w j) [] [] (Answer.returns (some j))

-- What follows for a job that was stopped.
abbrev pub count_stopped : Option Job → Change
count_stopped j = record {
  job = j;
  effects = leave_if j ++ Effect.counts Metric.metric_cancelled ∷ [];
  answer = Answer.returns none;
}

abbrev pub is_requested : Option Job → Bool
is_requested none = false
is_requested (some j) = j.cancel_requested

abbrev pub is_done_job : Option Job → Bool
is_done_job none = false
is_done_job (some j) = is_done j.status
