-- ===== src/Jobs/Sound/Sections.antt =====
-- cancel_job, confirm_job_billing, finalize_ready_conversion_job and the shorter sections of tasks.py.
use plt_converter.Prelude.{
  ℕ, ◌≤◌, ◌<◌, ◌≡◌, refl, Bool, true, false, Option, none, some, List, [], ◌∷◌, arith,
}
use plt_converter.Jobs.Rows.{
  Metric, is_terminal, is_done, is_finalizing, JobType, UserKey, Message, Job, World, Effect,
  Answer,
}
use plt_converter.Jobs.Billing.{
  requires_billing, release_failed, persist_release, commit_successful,
}
use plt_converter.Jobs.Handlers.{
  fail_now, cancel_job, confirm_billing, set_progress, give_back, finalize,
}
use plt_converter.Jobs.Running.{requeue, requeued, time_out, cancel_run, start_run}
use plt_converter.Jobs.Life.{apply}
use plt_converter.Jobs.Sound.{IsSoundFor, IsSound}

-- Where a job that is not done has ended: its slot is free and its billing was asked back.
module _ (w : World) (asked k : Job) (answer : Answer) (j : Option Job) (member committed : Bool)
    (leaving : ℕ) (waiting : List ℕ) (m : Metric) (retried : k.retry_count ≤ 1)
    (numbered : k.rq_attempt ≡ some k.retry_count) (ended : is_terminal k.status ≡ true)
    (undone : is_done k.status ≡ false) (final : is_finalizing k.status ≡ false) where
  pub released-IsSound : IsSound (
      apply (give_back w asked k [] (Effect.leaves ∷ Effect.counts m ∷ []) answer) (record {
        job = j;
        member = member;
        waiting = waiting;
        committed = committed;
        leaving = leaving;
      }))
  unfolding give_back persist_release release_failed requires_billing
  released-IsSound = ground arith

  pub counted-IsSound : IsSound (
      apply (give_back w asked k (Effect.leaves ∷ Effect.counts m ∷ []) [] answer) (record {
        job = j;
        member = member;
        waiting = waiting;
        committed = committed;
        leaving = leaving;
      }))
  unfolding give_back persist_release release_failed requires_billing
  counted-IsSound = ground arith

pub cancel-IsSound :
    (w : World) (user : Option UserKey) (expected : Option JobType) (j : Option Job)
    (member committed : Bool) (leaving : ℕ) (waiting : List ℕ)
    → IsSoundFor j member committed leaving
    → IsSound (
        apply (cancel_job w user expected j) (record {
          job = j;
          member = member;
          waiting = waiting;
          committed = committed;
          leaving = leaving;
        }))
unfolding cancel_job requires_billing
cancel-IsSound w user expected none member committed leaving waiting s = ground arith
cancel-IsSound w user expected (some j) member committed leaving waiting s = ground arith

pub confirm-IsSound :
    (w : World) (user : UserKey) (j : Option Job) (member committed : Bool) (leaving : ℕ)
    (waiting : List ℕ)
    → IsSoundFor j member committed leaving
    → IsSound (
        apply (confirm_billing w user j) (record {
          job = j;
          member = member;
          waiting = waiting;
          committed = committed;
          leaving = leaving;
        }))
unfolding confirm_billing requires_billing
confirm-IsSound w user none member committed leaving waiting s = ground arith
confirm-IsSound w user (some j) member committed leaving waiting s = ground arith

pub progress-IsSound :
    (w : World) (n : ℕ) (j : Option Job) (member committed : Bool) (leaving : ℕ) (waiting : List ℕ)
    → IsSoundFor j member committed leaving
    → IsSound (
        apply (set_progress w n j) (record {
          job = j;
          member = member;
          waiting = waiting;
          committed = committed;
          leaving = leaving;
        }))
unfolding set_progress requires_billing
progress-IsSound w n none member committed leaving waiting s = ground arith
progress-IsSound w n (some j) member committed leaving waiting s = ground arith

pub finalize-IsSound :
    (w : World) (j : Option Job) (member committed : Bool) (leaving : ℕ) (waiting : List ℕ)
    → IsSoundFor j member committed leaving
    → IsSound (
        apply (finalize w j) (record {
          job = j;
          member = member;
          waiting = waiting;
          committed = committed;
          leaving = leaving;
        }))
unfolding finalize commit_successful give_back persist_release release_failed requires_billing
finalize-IsSound w none member committed leaving waiting s = ground arith
finalize-IsSound w (some j) member committed leaving waiting s = ground arith

pub time_out-IsSound :
    (w : World) (j : Option Job) (member committed : Bool) (leaving : ℕ) (waiting : List ℕ)
    → IsSoundFor j member committed leaving
    → IsSound (
        apply (time_out w j) (record {
          job = j;
          member = member;
          waiting = waiting;
          committed = committed;
          leaving = leaving;
        }))
unfolding time_out give_back persist_release release_failed requires_billing
time_out-IsSound w none member committed leaving waiting s = ground arith
time_out-IsSound w (some j) member committed leaving waiting s = ground arith

pub start-IsSound :
    (w : World) (j : Option Job) (member committed : Bool) (leaving : ℕ) (waiting : List ℕ)
    → IsSoundFor j member committed leaving
    → IsSound (
        apply (start_run w j) (record {
          job = j;
          member = member;
          waiting = waiting;
          committed = committed;
          leaving = leaving;
        }))
unfolding start_run cancel_run give_back persist_release release_failed requires_billing
start-IsSound w none member committed leaving waiting s = ground arith
start-IsSound w (some j) member committed leaving waiting s = ground arith

pub requeued-IsSound :
    (w : World) (j : Job) (taken member committed : Bool) (leaving : ℕ) (waiting : List ℕ)
    → j.retry_count < 1
    → IsSound (
        apply (requeued w j.retry_count (requeue w j.retry_count j) taken) (record {
          job = some j;
          member = member;
          waiting = waiting;
          committed = committed;
          leaving = leaving;
        }))
unfolding requeued
requeued-IsSound w j true member committed leaving waiting few =
    unfold requires_billing in ground arith
requeued-IsSound w j false member committed leaving waiting few =
    let k = requeue w j.retry_count j in
    released-IsSound w k (fail_now w Message.retry_failed k) (Answer.returns none) (some j) member
      committed leaving waiting Metric.metric_failed (omega arith) refl refl refl refl
