-- ===== src/Jobs/Life.antt =====
-- One job of app/job_queue.py and app/tasks.py among all the processes that handle it.
use plt_converter.Prelude.{
  ℕ, ◌==◌, Bool, true, false, Option, none, some, List, [], ◌∷◌, ◌++◌, ◌+◌, ◌≡◌, ◌&&◌, delete_where,
  one_if, if◌then◌else◌,
}
use plt_converter.Jobs.Rows.{JobType, UserKey, Message, Job, World, Effect, Answer, Change}
use plt_converter.Jobs.Results.{Output}
use plt_converter.Jobs.Handlers.{cancel_job, confirm_billing, set_progress, finalize}
use plt_converter.Jobs.Running.{
  time_out, start_run, finish_run, is_done_job, count_done, count_stopped, fail_transient, fail_run,
  mark_failed, mark_stopped, is_requested, billed,
}

-- The record (`none` when its key is gone), whether the user's set holds the job, the RQ jobs that
-- wait for a worker, whether the billing service has accepted a commit, and how many processes have
-- stored the job's end and released its lock, and have yet to call release_user_job.
pub record Life : Type 0 where
  pub job : Option Job
  pub member : Bool
  pub waiting : List ℕ
  pub committed : Bool
  pub leaving : ℕ

-- The effects that are seen here.
abbrev pub perform : Effect → Life → Life
perform Effect.leaves l = record l { member = false }
perform (Effect.enqueues n) l = record l { waiting = l.waiting ++ n ∷ [] }
perform (Effect.dequeues none) l = l
perform (Effect.dequeues (some n)) l = record l { waiting = delete_where (λ m. m == n) l.waiting }
perform Effect.commits l = record l { committed = true }
perform (Effect.counts m) l = l
perform (Effect.stops n) l = l
perform (Effect.releases b) l = l

abbrev pub perform_all : List Effect → Life → Life
perform_all [] l = l
perform_all (e ∷ es) l = perform_all es (perform e l)

abbrev pub apply : Change → Life → Life
apply c l = perform_all c.effects (record l { job = c.job })

abbrev pub is_returned : Answer → Bool
is_returned (Answer.returns (some j)) = true
is_returned _ = false

-- A section behind which its process calls release_user_job, if `b`, without the lock.
abbrev pub apply_then : (Change → Bool) → Change → Life → Life
apply_then b c l = record (apply c l) { leaving = l.leaving + one_if (b c) }

-- finish_run and finalize: where the job that they return is done.
abbrev pub goes_on_done : Change → Bool
goes_on_done c = is_returned c.answer && is_done_job c.job

abbrev pub goes_on_stopped : Change → Bool
goes_on_stopped c = is_returned c.answer

-- A section of a handler under the job's lock, in any process and at any time, a call of
-- release_user_job behind one, a worker that takes an RQ job, and a key that has run out.
pub data Step (l : Life) : Life → Type 0 where
  cancels :
      (w : World) (user : Option UserKey) (expected : Option JobType)
      → Step l (apply (cancel_job w user expected l.job) l)
  confirms : (w : World) (user : UserKey) → Step l (apply (confirm_billing w user l.job) l)
  progresses : (w : World) (n : ℕ) → Step l (apply (set_progress w n l.job) l)
  finalizes : (w : World) → Step l (apply (finalize w l.job) l)
  times_out : (w : World) → Step l (apply (time_out w l.job) l)
  starts : (w : World) → Step l (apply (start_run w l.job) l)
  finishes :
      (w : World) (started : ℕ) (out : Output) (own : Job)
      → Step l (apply_then goes_on_done (finish_run w started out own l.job) l)
  finalizes_run : (w : World) → Step l (apply_then goes_on_done (finalize w l.job) l)
  retries :
      (w : World) (started : ℕ) (m : Message) (own : Job)
      → Step l (apply (fail_transient w started m own l.job) l)
  fails :
      (w : World) (started : ℕ) (m : Message) (own : Job)
      → Step l (apply (fail_run w started m own l.job) l)
  marks_failed :
      (w : World) (transient : Bool) (m : Message)
      → Step l (apply (mark_failed w transient m l.job) l)
  marks_stopped : (w : World) → Step l (apply_then goes_on_stopped (mark_stopped w l.job) l)
  leaves_done :
      (n : ℕ) → l.leaving ≡ n + 1 → Step l (record (apply (count_done l.job) l) { leaving = n })
  leaves_stopped :
      (n : ℕ) → l.leaving ≡ n + 1 → Step l (record (apply (count_stopped l.job) l) { leaving = n })
  takes : (n : ℕ) → Step l (record l { waiting = delete_where (λ m. m == n) l.waiting })
  vanishes : Step l (record l { job = none })

pub data Reach (l : Life) : Life → Type 0 where
  here : Reach l l
  next : {m n : Life} → Reach l m → Step m n → Reach l n

-- What follows for a job that is done, without the lock.
abbrev pub leave : Life → Life
leave l = apply (count_done l.job) l

-- Behind finalize_ready_conversion_job: its exception goes to `except Exception`, whose section follows;
-- a job that is not done returns.
unfoldable pub after_finalize : World → ℕ → Job → Change → Life → Life
unfolding fail_run
after_finalize w started own c l = elim c.answer [
  | Answer.billing_rejected code ↦
      let m = apply c l in apply (fail_run w started (Message.refusal code) own m.job) m
  | _ ↦ let m = apply c l in if is_done_job m.job then leave m else m
]

-- What execute_job does once `_execute` has returned: each section changes what the one before it left;
-- `w2` is the world of the second section.
unfoldable pub complete_run : World → World → ℕ → Output → Job → Life → Life
unfolding finish_run after_finalize finalize
complete_run w w2 started out own l =
    let m = apply (finish_run w started out own l.job) l in
    if is_requested l.job
    then m
    else if billed l.job own
    then after_finalize w2 started own (finalize w2 m.job) m
    else leave m
