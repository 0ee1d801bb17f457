-- ===== src/Jobs/Tests/Lives.antt =====
-- A job that is confirmed, run and finished, and a preview that is analysed.
use plt_converter.Prelude.{ℕ, ◌≡◌, refl, true, Option, none, some, List, [], ◌∷◌}
use plt_converter.Jobs.Rows.{JobType, JobStatus, Job}
use plt_converter.Jobs.Results.{Value}
use plt_converter.Jobs.Handlers.{confirm_billing, finalize, settle_output}
use plt_converter.Jobs.Billing.{commit_successful, requires_billing}
use plt_converter.Jobs.Running.{start_run, finish_run, count_done}
use plt_converter.Jobs.Life.{Life, apply, apply_then, goes_on_done, Step, Reach, complete_run}
use plt_converter.Jobs.Sound.{IsSound}
use plt_converter.Jobs.Sound.Steps.{entry, reachable-IsSound}
use plt_converter.Jobs.Finishing.{IsFinished, holding, complete_run-IsFinished}
use plt_converter.Jobs.Analysis.{
  Run, layout_of, begin_analysis, end_analysis, Analyzed, finish_analysis,
}
use plt_converter.Jobs.Analysis.Histories.{Happens, History, suggestion-IsCurrent}
use plt_converter.Jobs.Tests.{intake_at, ken, submission, world_at, sheet, entered_job}

abbrev confirmed : Life
confirmed =
    let l = entry (intake_at 100000 8) submission in
    apply (confirm_billing (world_at 101000) ken l.job) l

abbrev started : Life
started = apply (start_run (world_at 102000) confirmed.job) confirmed

abbrev finished : Life
finished =
    apply_then goes_on_done (finish_run (world_at 103000) 102000 sheet entered_job started.job)
      started

abbrev finalized : Life
finalized = apply_then goes_on_done (finalize (world_at 104000) finished.job) finished

abbrev completed : Life
completed = record (apply (count_done finalized.job) finalized) { leaving = 0 }

finalized_leaves : finalized.leaving ≡ 1
unfolding start_run finish_run finalize settle_output commit_successful requires_billing
    confirm_billing
finalized_leaves = refl

completed-IsSound : IsSound completed
completed-IsSound = reachable-IsSound (intake_at 100000 8) submission (
    Reach.next
      (Reach.next
        (Reach.next
          (Reach.next (Reach.next Reach.here (Step.confirms (world_at 101000) ken))
            (Step.starts (world_at 102000)))
          (Step.finishes (world_at 103000) 102000 sheet entered_job))
        (Step.finalizes_run (world_at 104000)))
      (Step.leaves_done 0 finalized_leaves))

abbrev queued_job : Job
queued_job = record entered_job { status = JobStatus.queued; billing_confirmed = true }

abbrev ready : Life
ready = apply (start_run (world_at 102000) (some queued_job)) (holding queued_job confirmed)

run-IsFinished :
    IsFinished sheet
      (complete_run (world_at 103000) (world_at 104000) 102000 sheet queued_job ready)
    × Reach
        (holding queued_job confirmed)
        (complete_run (world_at 103000) (world_at 104000) 102000 sheet queued_job ready)
run-IsFinished =
    complete_run-IsFinished (world_at 102000) (world_at 103000) (world_at 104000) 102000 sheet
      queued_job confirmed refl refl refl (λ due. (refl, refl, refl))

-- A preview that was done, whose analysis answers the number of its pages.
abbrev preview_job : Job
preview_job = record entered_job {
  job_type = JobType.pdf_preview;
  status = JobStatus.done;
  result = some sheet;
}

abbrev analyze : Value → Option (List ℕ) → ℕ
analyze mode none = 40
analyze mode (some pages) = 41

abbrev begun : Option Job
begun = (begin_analysis 5000 none (some preview_job)).1

abbrev first_run : Run
first_run = record { attempt = 0; mode = Value.null; pages = none }

abbrev ended : Option Job
ended = end_analysis 6000 first_run (Analyzed.suggests 40) begun

analysed_job : Job
analysed_job = elim ended [ none ↦ preview_job | some j ↦ j ]

ended_here : ended ≡ some analysed_job
unfolding analysed_job end_analysis finish_analysis begin_analysis
ended_here = refl

suggested_here : (layout_of analysed_job).suggestion ≡ some 40
unfolding analysed_job end_analysis finish_analysis begin_analysis
suggested_here = refl

analysed_run : analyze (layout_of analysed_job).mode (layout_of analysed_job).page_indexes ≡ 40
unfolding begin_analysis
analysed_run =
    suggestion-IsCurrent analyze preview_job analysed_job
      (record { job = ended; runs = first_run ∷ [] }) 40 refl
      (History.next (History.next History.here (Happens.begins 5000 none))
        (Happens.succeeds 6000 first_run [] [] refl))
      ended_here suggested_here
