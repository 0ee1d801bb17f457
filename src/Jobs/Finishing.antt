-- ===== src/Jobs/Finishing.antt =====
-- A job that runs through execute_job of app/tasks.py without being disturbed.
use plt_converter.Prelude.{
  arith, ℕ, ◌≡◌, refl, true, false, ◌||◌, some, Bool-cases, inl, inr, subst,
}
use plt_converter.Jobs.Results.{Output}
use plt_converter.Jobs.Rows.{
  JobStatus, is_terminal, is_finalizing, is_granted, is_pdf_to_pdf, Job, World, CommitAnswer,
}
use plt_converter.Jobs.Billing.{requires_billing, is_billable, commit_successful}
use plt_converter.Jobs.Handlers.{finalize, settle_output, has_file}
use plt_converter.Jobs.Running.{start_run, finish_run}
use plt_converter.Jobs.Life.{Life, apply, Step, Reach, after_finalize, complete_run}

-- The job is done with this output, and its user's slot is free.
pub record IsFinished (out : Output) (l : Life) : Type 0 where
  pub job : Job
  pub stored : l.job ≡ some job
  pub status : job.status ≡ JobStatus.done
  pub result : job.result ≡ some out
  pub slot : l.member ≡ false

-- The job's record is j.
abbrev pub holding : Job → Life → Life
holding j l = record l { job = some j }

arrives : {l m : Life} → Reach l m → (n : Life) → m ≡ n → Reach l n
arrives {l = l} r n e = subst (λ x. Reach l x) e r

-- A job that has not ended, is not being finalized and was not asked to stop, and that a worker runs to
-- the end with no other section in between, ends as done, with the output that the conversion gave, and
-- leaves its user's set: if its output need not be billed, or else if it names an account and a
-- request, the output's file is there and the billing service accepts the commit. This run is one of
-- the sequences of sections that Jobs.Life allows.
pub complete_run-IsFinished :
    (w0 w1 w2 : World) (started : ℕ) (out : Output) (j : Job) (l : Life)
    → is_terminal j.status ≡ false
    → is_finalizing j.status ≡ false
    → j.cancel_requested ≡ false
    → (requires_billing j ≡ true
        → (is_billable j ≡ true)
          × (has_file w2 out.path ≡ true)
          × (w2.commit ≡ CommitAnswer.accepted))
    → IsFinished out
        (complete_run w1 w2 started out j (apply (start_run w0 (some j)) (holding j l)))
      × Reach
          (holding j l)
          (complete_run w1 w2 started out j (apply (start_run w0 (some j)) (holding j l)))
unfolding complete_run start_run finish_run after_finalize finalize settle_output commit_successful
    requires_billing
complete_run-IsFinished w0 w1 w2 started out j l live idle wanted paid =
    let begun = Reach.next Reach.here (Step.starts w0) in
    let ran = Reach.next begun (Step.finishes w1 started out j) in
    elim (Bool-cases (is_pdf_to_pdf j.job_type || is_granted j.access)) [
      | inr free ↦ (
        simp (live, idle, wanted, free)
            (record { job = _; stored = refl; status = refl; result = refl; slot = refl }),
        arrives (Reach.next ran (Step.leaves_done l.leaving (simp (live, idle, wanted, free) refl)))
            _ (simp (live, idle, wanted, free) refl),
      )
      | inl due ↦
          let (who, file, taken) = paid due in
          (
            simp (live, idle, wanted, due, who, file, taken)
                (record { job = _; stored = refl; status = refl; result = refl; slot = refl }),
            arrives
                (Reach.next (Reach.next ran (Step.finalizes_run w2)) (
                  Step.leaves_done l.leaving
                    (simp (live, idle, wanted, due, who, file, taken) (omega arith))))
                _ (simp (live, idle, wanted, due, who, file, taken) refl),
          )
    ]
