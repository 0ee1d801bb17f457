-- ===== src/Jobs/Sound.antt =====
-- What app/job_queue.py and app/tasks.py keep of a job: its retries, its slot and its billing.
use plt_converter.Prelude.{
  subst, ◌∙◌, ap, sym, inl, inr, Bool-cases, ltb, ℕ, ◌+◌, ◌≤◌, ◌<◌, ◌≡◌, refl, ◌==◌, ◌&&◌, ◌||◌,
  not, leb, Bool, true, false, Option, none, some, List, [], ◌∷◌, ◌++◌, arith,
}
use plt_converter.Jobs.Rows.{
  Metric, JobStatus, is_terminal, is_done, is_finalizing, is_billing_pending, is_cancelling,
  is_settled, is_waiting, is_ready, JobType, UserKey, Message, Job, World, CommitAnswer, StopAnswer,
  Effect, Answer, Change,
}
use plt_converter.Jobs.Results.{Output}
use plt_converter.Jobs.Billing.{
  requires_billing, release_failed, persist_release, Commit, commit_successful,
}
use plt_converter.Jobs.Handlers.{
  fail_now, cancel_now, cancel_job, confirm_billing, set_progress, give_back, finalize,
  stop_running, fail_output, settle_output,
}
use plt_converter.Jobs.Running.{count_done, is_requested, is_done_job, billed}
use plt_converter.Jobs.Running.{
  requeue, requeued, is_withdrawn, elapsed, time_out, cancel_run, start_run, finish_run,
  enqueue_retry, fail_transient, fail_run, mark_failed, mark_stopped,
}
use plt_converter.Jobs.Life.{Life, perform, perform_all, apply, Step, Reach}
pub mod Sections
pub mod Failing
pub mod Runs
pub mod Steps

abbrev pub implies : Bool → Bool → Bool
implies a b = not a || b

-- One retry at most, under the RQ job of its number; a finished job has left its user's set, or a
-- process that stored its end has yet to take it out; an output that must be billed is done only when
-- the commit was accepted, and only such outputs are finalized.
pub record IsSoundJob (j : Job) (member committed : Bool) (leaving : ℕ) : Type 0 where
  pub retried : j.retry_count ≤ 1
  pub numbered : j.rq_attempt ≡ some j.retry_count
  pub slot : implies (is_terminal j.status) (not member || ltb 0 leaving) ≡ true
  pub paid : implies (is_done j.status && requires_billing j) committed ≡ true
  pub billed : implies (is_finalizing j.status) (requires_billing j) ≡ true

abbrev pub IsSoundFor : Option Job → Bool → Bool → ℕ → Type 0
IsSoundFor none member committed leaving = Unit
IsSoundFor (some j) member committed leaving = IsSoundJob j member committed leaving

abbrev pub IsSound : Life → Type 0
IsSound l = IsSoundFor l.job l.member l.committed l.leaving
