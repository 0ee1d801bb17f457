-- ===== src/Jobs/Position.antt =====
-- queue_position of app/job_queue.py.
use plt_converter.Prelude.{
  ℕ, ◌+◌, ◌≡◌, ◌∙◌, ap, refl, Bool, true, false, ◌&&◌, Option, none, some, List, [], ◌∷◌, ◌++◌,
  ◌==◌, ==_refl, arith, if◌then◌else◌, exists_where, length, find_row,
}
use plt_converter.Jobs.Rows.{Job}
use plt_converter.Jobs.Desk.{Ticket, Desk, load_job, enforce_rate_limit, enforce_user_capacity}
use plt_converter.Jobs.Matching.{Submission, Intake}
use plt_converter.Jobs.Submit.{Outcome, submit_job, drop_request, called, admit, new_job}
use plt_converter.Jobs.Submit.Entries.{fitted, entered}
use plt_converter.Jobs.Submit.Limits.{called-queue, called-jobs}
use plt_converter.Jobs.Submit.Frames.{load_job_saved}

-- The RQ job of a record: `rq_job_id`, or the bare id.
abbrev pub rq_attempt_of : Option Job → Option ℕ
rq_attempt_of none = none
rq_attempt_of (some j) = j.rq_attempt

abbrev pub is_ticket : ℕ → Option ℕ → Ticket → Bool
is_ticket id none t = false
is_ticket id (some n) t = (t.job == id) && (t.attempt == n)

-- `list.index(x) + 1`, and 0 where it raises ValueError.
abbrev pub position : (Ticket → Bool) → List Ticket → ℕ
position p [] = 0
position p (t ∷ ts) =
    let rest = position p ts in if p t then 1 else if rest == 0 then 0 else rest + 1

unfoldable pub queue_position : ℕ → Desk → ℕ
queue_position id d = position (is_ticket id (rq_attempt_of (load_job id d))) d.queue

position-snoc :
    (p : Ticket → Bool) (ts : List Ticket) (t : Ticket)
    → exists_where p ts ≡ false
    → p t ≡ true
    → position p (ts ++ t ∷ []) ≡ length ts + 1
position-snoc p [] t new h = rw h refl
position-snoc p (x ∷ ts) t new h = ground (arith, position-snoc p ts t)

drop_request-queue :
    (i : Intake) (s : Submission) (d : Desk) → (drop_request s.user s.request d).queue ≡ d.queue
unfolding drop_request
drop_request-queue i s d = ground arith

fitted-queue : (i : Intake) (s : Submission) (d : Desk) → (fitted i s d).1.queue ≡ d.queue
unfolding enforce_rate_limit enforce_user_capacity
fitted-queue i s d = refl

-- A new job that a submission has accepted, under an id that no ticket of the queue names, stands behind
-- every job that was queued before it.
pub submit_job-queue_position :
    (i : Intake) (s : Submission) (d d' : Desk) (j : Job)
    → submit_job i s d ≡ (Outcome.accepts j, d')
    → j.deduplicated ≡ false
    → exists_where (is_ticket i.fresh (some 0)) d.queue ≡ false
    → queue_position j.id d' ≡ length d.queue + 1
unfolding queue_position
submit_job-queue_position i s d d' j e fresh none_of =
    let a = drop_request s.user s.request d in
    let f = (fitted i s a).1 in
    let n = entered i s d d' j e fresh in
    let same : f.queue ≡ d.queue = fitted-queue i s a ∙ drop_request-queue i s d in
    let stored : load_job i.fresh (called i s (admit i s f) true).1 ≡ some (new_job i s) =
      ap (λ js. find_row (λ (k : Job). k.id) i.fresh js) (called-jobs i s (admit i s f))
      ∙ load_job_saved (new_job i s) f in
    let queued = called-queue i s (admit i s f) in
    rw (n.job, n.desk, stored, queued, same)
      (position-snoc (is_ticket i.fresh (some 0)) d.queue (record { job = i.fresh; attempt = 0 })
        none_of (rw (==_refl i.fresh) refl))
