-- ===== src/Jobs/Sound/Runs.antt =====
-- What execute_job and mark_job_stopped do behind `_execute` and behind the lock.
use plt_converter.Prelude.{ℕ, Bool, Option, none, some, List, arith}
use plt_converter.Jobs.Rows.{Job, World}
use plt_converter.Jobs.Results.{Output}
use plt_converter.Jobs.Billing.{
  requires_billing, release_failed, persist_release, commit_successful,
}
use plt_converter.Jobs.Handlers.{give_back, finalize}
use plt_converter.Jobs.Running.{cancel_run, finish_run, count_done, count_stopped, mark_stopped}
use plt_converter.Jobs.Life.{Life, apply, apply_then, goes_on_done, goes_on_stopped}
use plt_converter.Jobs.Sound.{IsSoundFor, IsSound}

pub finish-IsSound :
    (w : World) (started : ℕ) (out : Output) (own : Job) (j : Option Job) (member committed : Bool)
    (leaving : ℕ) (waiting : List ℕ)
    → IsSoundFor j member committed leaving
    → IsSound (
        apply_then goes_on_done (finish_run w started out own j) (record {
          job = j;
          member = member;
          waiting = waiting;
          committed = committed;
          leaving = leaving;
        }))
unfolding finish_run cancel_run give_back persist_release release_failed requires_billing
finish-IsSound w started out own none member committed leaving waiting s = tt
finish-IsSound w started out own (some j) member committed leaving waiting s = ground arith

pub finalize_run-IsSound :
    (w : World) (j : Option Job) (member committed : Bool) (leaving : ℕ) (waiting : List ℕ)
    → IsSoundFor j member committed leaving
    → IsSound (
        apply_then goes_on_done (finalize w j) (record {
          job = j;
          member = member;
          waiting = waiting;
          committed = committed;
          leaving = leaving;
        }))
unfolding finalize commit_successful give_back persist_release release_failed requires_billing
finalize_run-IsSound w none member committed leaving waiting s = tt
finalize_run-IsSound w (some j) member committed leaving waiting s = ground arith

pub mark_stopped-IsSound :
    (w : World) (j : Option Job) (member committed : Bool) (leaving : ℕ) (waiting : List ℕ)
    → IsSoundFor j member committed leaving
    → IsSound (
        apply_then goes_on_stopped (mark_stopped w j) (record {
          job = j;
          member = member;
          waiting = waiting;
          committed = committed;
          leaving = leaving;
        }))
unfolding mark_stopped give_back persist_release release_failed requires_billing
mark_stopped-IsSound w none member committed leaving waiting s = tt
mark_stopped-IsSound w (some j) member committed leaving waiting s = ground arith

pub leave_done-IsSound :
    (l : Life) (n : ℕ) → IsSound l → IsSound (record (apply (count_done l.job) l) { leaving = n })
leave_done-IsSound l n s = by_job l.job s
  where
    by_job :
        (j : Option Job)
        → IsSoundFor j l.member l.committed l.leaving
        → IsSound (record (apply (count_done j) l) { leaving = n })
    by_job none s = tt
    by_job (some j) s = unfold requires_billing in ground arith

pub leave_stopped-IsSound :
    (l : Life) (n : ℕ)
    → IsSound l
    → IsSound (record (apply (count_stopped l.job) l) { leaving = n })
leave_stopped-IsSound l n s = by_job l.job s
  where
    by_job :
        (j : Option Job)
        → IsSoundFor j l.member l.committed l.leaving
        → IsSound (record (apply (count_stopped j) l) { leaving = n })
    by_job none s = tt
    by_job (some j) s = unfold requires_billing in ground arith
