-- ===== src/Jobs/Sound/Steps.antt =====
-- The steps of a job in any order.
use plt_converter.Prelude.{some, [], ◌∷◌, true, false, arith}
use plt_converter.Jobs.Life.{Life, Step, Reach}
use plt_converter.Jobs.Matching.{Submission, Intake}
use plt_converter.Jobs.Submit.{new_job}
use plt_converter.Jobs.Sound.{IsSound}
use plt_converter.Jobs.Sound.Sections.{
  cancel-IsSound, confirm-IsSound, progress-IsSound, finalize-IsSound, time_out-IsSound,
  start-IsSound,
}
use plt_converter.Jobs.Sound.Failing.{retry-IsSound, fail-IsSound, mark_failed-IsSound}
use plt_converter.Jobs.Sound.Runs.{
  finish-IsSound, finalize_run-IsSound, mark_stopped-IsSound, leave_done-IsSound,
  leave_stopped-IsSound,
}

Step-IsSound : {l l' : Life} → Step l l' → IsSound l → IsSound l'
Step-IsSound {l} (Step.cancels w user expected) s =
    cancel-IsSound w user expected l.job l.member l.committed l.leaving l.waiting s
Step-IsSound {l} (Step.confirms w user) s =
    confirm-IsSound w user l.job l.member l.committed l.leaving l.waiting s
Step-IsSound {l} (Step.progresses w n) s =
    progress-IsSound w n l.job l.member l.committed l.leaving l.waiting s
Step-IsSound {l} (Step.finalizes w) s =
    finalize-IsSound w l.job l.member l.committed l.leaving l.waiting s
Step-IsSound {l} (Step.times_out w) s =
    time_out-IsSound w l.job l.member l.committed l.leaving l.waiting s
Step-IsSound {l} (Step.starts w) s =
    start-IsSound w l.job l.member l.committed l.leaving l.waiting s
Step-IsSound {l} (Step.finishes w started out own) s =
    finish-IsSound w started out own l.job l.member l.committed l.leaving l.waiting s
Step-IsSound {l} (Step.finalizes_run w) s =
    finalize_run-IsSound w l.job l.member l.committed l.leaving l.waiting s
Step-IsSound {l} (Step.retries w started m own) s =
    retry-IsSound w started m own l.job l.member l.committed l.leaving l.waiting s
Step-IsSound {l} (Step.fails w started m own) s =
    fail-IsSound w started m own l.job l.member l.committed l.leaving l.waiting s
Step-IsSound {l} (Step.marks_failed w transient m) s =
    mark_failed-IsSound w transient m l.job l.member l.committed l.leaving l.waiting s
Step-IsSound {l} (Step.marks_stopped w) s =
    mark_stopped-IsSound w l.job l.member l.committed l.leaving l.waiting s
Step-IsSound {l} (Step.leaves_done n e) s = leave_done-IsSound l n s
Step-IsSound {l} (Step.leaves_stopped n e) s = leave_stopped-IsSound l n s
Step-IsSound (Step.takes n) s = s
Step-IsSound Step.vanishes s = tt

Reach-IsSound : {l l' : Life} → Reach l l' → IsSound l → IsSound l'
Reach-IsSound Reach.here s = s
Reach-IsSound (Reach.next r st) s = Step-IsSound st (Reach-IsSound r s)

-- A job as submit_job leaves it: its record, its place in the user's set, its RQ job.
abbrev pub entry : Intake → Submission → Life
entry i s = record {
  job = some (new_job i s);
  member = true;
  waiting = 0 ∷ [];
  committed = false;
  leaving = 0;
}

entry-IsSound : (i : Intake) (s : Submission) → IsSound (entry i s)
entry-IsSound i s = ground arith

-- From the moment a job is submitted, whatever sections of handlers, workers and callbacks run on it
-- in whatever order, with the calls of release_user_job that follow some of them without the lock,
-- while its record exists: it is retried once at most, under the RQ job of its retry's number; once
-- finished it has left its user's set of active jobs, or a process that stored its end has yet to take
-- it out; it is done with an output that must be billed only if the billing service has accepted a
-- commit; and only such an output is finalized.
pub reachable-IsSound : (i : Intake) (s : Submission) {l : Life} → Reach (entry i s) l → IsSound l
reachable-IsSound i s r = Reach-IsSound r (entry-IsSound i s)
