-- ===== src/Jobs/Submit/Limits.antt =====
-- The limits of submit_job: the minute's submissions, the user's active jobs, the queue.
use plt_converter.Prelude.{
  ℕ, ◌+◌, ◌/◌, ◌≤◌, ◌≡◌, max, refl, ap, ◌∙◌, length, true, false, Option, none, some, List, [], ◌∷◌,
  ◌++◌, ◌==◌, exists_where, find_row, arith, Bool-cases, inl, inr, ==_refl, leb→le, leb→lt,
}
use plt_converter.Jobs.Rows.{UserKey, same_user, Job, is_active}
use plt_converter.Jobs.Desk.{
  bump, Rate, Ticket, Scope, Slot, Desk, load_job, enforce_rate_limit, enforce_user_capacity,
  sweep_slots, is_active_job, rate_times, queue_capacity,
}
use plt_converter.Jobs.Submit.{
  Outcome, drop_request, set_request, push, called, is_slot, add_slot, admit, submit_job, new_job,
  is_full,
}
use plt_converter.Jobs.Matching.{Submission, Intake}
use plt_converter.Jobs.Submit.Frames.{same_user_refl, load_job-called, load_job_saved}
use plt_converter.Jobs.Submit.Entries.{rated, fitted, entered}

-- How many jobs of a user's set are active.
abbrev pub active_jobs : UserKey → Desk → ℕ
active_jobs u d = (sweep_slots u d d.slots).1

-- A set that was swept counts the same again when a record with another id was entered.
sweep_slots-swept :
    (u : UserKey) (d e : Desk) (ss : List Slot) (id : ℕ)
    → exists_where (λ (x : Slot). x.job == id) ss ≡ false
    → ((k : ℕ) → (k == id) ≡ false → load_job k e ≡ load_job k d)
    → (sweep_slots u e (sweep_slots u d ss).0).1 ≡ (sweep_slots u d ss).1
sweep_slots-swept u d e [] id none_of same = refl
sweep_slots-swept u d e (s ∷ ss) id none_of same = elim (Bool-cases (s.job == id)) [
  | inl hit ↦ ground arith
  | inr miss ↦
      let r = sweep_slots-swept u d e ss id (ground arith) same in
      let l = same s.job miss in
      elim (Bool-cases (same_user s.user u)) [
        | inr other ↦ simp other r
        | inl own ↦ elim (Bool-cases (is_active_job (load_job s.job d))) [
          | inr idle ↦ simp (own, idle) r
          | inl busy ↦ simp (own, busy, l) (ap (λ n. n + 1) r)
        ]
      ]
]

swept-misses :
    (u : UserKey) (d : Desk) (ss : List Slot) (id : ℕ)
    → exists_where (λ (x : Slot). x.job == id) ss ≡ false
    → exists_where (is_slot u id) (sweep_slots u d ss).0 ≡ false
swept-misses u d [] id none_of = refl
swept-misses u d (s ∷ ss) id none_of = elim (Bool-cases (s.job == id)) [
  | inl hit ↦ ground arith
  | inr miss ↦
      let r = swept-misses u d ss id (ground arith) in
      elim (Bool-cases (same_user s.user u)) [
        | inr other ↦ simp other r
        | inl own ↦ elim (Bool-cases (is_active_job (load_job s.job d))) [
          | inr idle ↦ simp (own, idle) r
          | inl busy ↦ simp (own, busy, miss) r
        ]
      ]
]

set_request-others :
    (u : UserKey) (r : Option ℕ) (id : ℕ) (d : Desk)
    → set_request u r id d ≡ record d { requests = (set_request u r id d).requests }
unfolding set_request
set_request-others u none id d = refl
set_request-others u (some request) id d = refl

length-snoc : (ts : List Ticket) (t : Ticket) → length (ts ++ t ∷ []) ≡ length ts + 1
length-snoc [] t = refl
length-snoc (x ∷ ts) t = ap (λ n. n + 1) (length-snoc ts t)

module _ (i : Intake) (s : Submission) (d : Desk) where
  called-slots : (called i s d true).1.slots ≡ d.slots
  unfolding called
  called-slots = ap (λ (x : Desk). x.slots) (set_request-others s.user s.request i.fresh (push i d))

  called-rates : (called i s d true).1.rates ≡ d.rates
  unfolding called
  called-rates = ap (λ (x : Desk). x.rates) (set_request-others s.user s.request i.fresh (push i d))

  pub called-queue : (called i s d true).1.queue ≡ (push i d).queue
  unfolding called
  called-queue = ap (λ (x : Desk). x.queue) (set_request-others s.user s.request i.fresh (push i d))

  pub called-jobs : (called i s d true).1.jobs ≡ d.jobs
  unfolding called
  called-jobs = ap (λ (x : Desk). x.jobs) (set_request-others s.user s.request i.fresh (push i d))

new_job-IsActive : (i : Intake) (s : Submission) → is_active (new_job i s).status ≡ true
new_job-IsActive i s = ground arith

rate_times-bump :
    (u : UserKey) (m : ℕ) (rs : List Rate)
    → rate_times Scope.jobs_scope u m (bump Scope.jobs_scope u m rs)
      ≡ rate_times Scope.jobs_scope u m rs + 1
rate_times-bump u m rs = rw (same_user_refl u, ==_refl m) refl

sweep_slots-add_slot :
    (u : UserKey) (e : Desk) (id : ℕ) (ss : List Slot)
    → exists_where (is_slot u id) ss ≡ false
    → is_active_job (load_job id e) ≡ true
    → (sweep_slots u e (add_slot u id ss)).1 ≡ (sweep_slots u e ss).1 + 1
sweep_slots-add_slot u e id ss missing busy = simp (missing, same_user_refl u, busy) refl

-- What the limits say of the desk that a new record leaves.
module _ (i : Intake) (s : Submission) (d : Desk) where
  abbrev left_desk : Desk
  left_desk = (called i s (admit i s (fitted i s d).1) true).1

  entered-rates :
      (rated i s d).0 ≡ true
      → rate_times Scope.jobs_scope s.user (i.now / 60000) left_desk.rates
        ≤ max 1 i.settings.rate_limit
  unfolding enforce_rate_limit enforce_user_capacity
  entered-rates timely =
      rw (called-rates i s (admit i s (fitted i s d).1))
        (rw (rate_times-bump s.user (i.now / 60000) d.rates) (leb→le _ _ timely))

  entered-queue :
      is_full i (fitted i s d).1 ≡ false
      → length left_desk.queue + i.started ≤ queue_capacity i.settings
  entered-queue room =
      let f = (fitted i s d).1 in
      let short = leb→lt (queue_capacity i.settings) (length f.queue + i.started) room in
      rw
        (
          called-queue i s (admit i s f),
          length-snoc f.queue (record { job = i.fresh; attempt = 0 }),
        )
        (omega (arith, short))

  entered-active :
      exists_where (λ (x : Slot). x.job == i.fresh) d.slots ≡ false
      → (fitted i s d).0 ≡ true
      → active_jobs s.user left_desk ≤ max 1 i.settings.user_max
  unfolding enforce_rate_limit enforce_user_capacity
  entered-active none_of few =
      let f = (fitted i s d).1 in
      let r = (rated i s d).1 in
      let kept =
        sweep_slots-swept s.user r left_desk d.slots i.fresh none_of
          (λ k other. load_job-called i s k other true f) in
      let missing = swept-misses s.user r d.slots i.fresh none_of in
      let swept = (sweep_slots s.user r d.slots).0 in
      let stored : load_job i.fresh left_desk ≡ some (new_job i s) =
        ap (λ js. find_row (λ (k : Job). k.id) i.fresh js) (called-jobs i s (admit i s f))
        ∙ load_job_saved (new_job i s) f in
      let busy : is_active_job (load_job i.fresh left_desk) ≡ true =
        ap is_active_job stored ∙ new_job-IsActive i s in
      let counted : active_jobs s.user left_desk ≡ (sweep_slots s.user r d.slots).1 + 1 =
        ap (λ ss. (sweep_slots s.user left_desk ss).1) (called-slots i s (admit i s f))
        ∙ sweep_slots-add_slot s.user left_desk i.fresh swept missing busy
        ∙ ap (λ n. n + 1) kept in
      ground (arith, counted, few)

-- The limits that hold when a new job was accepted: the submissions of its user's minute, the active
-- jobs of its user's set, and the jobs that are queued or running.
pub record IsWithinLimits (i : Intake) (s : Submission) (d : Desk) : Type 0 where
  pub rate :
      rate_times Scope.jobs_scope s.user (i.now / 60000) d.rates ≤ max 1 i.settings.rate_limit
  pub active : active_jobs s.user d ≤ max 1 i.settings.user_max
  pub queue : length d.queue + i.started ≤ queue_capacity i.settings

drop_request-slots : (u : UserKey) (r : Option ℕ) (d : Desk) → (drop_request u r d).slots ≡ d.slots
unfolding drop_request
drop_request-slots u none d = refl
drop_request-slots u (some request) d = refl

-- A submission that enters a new job, under an id that no user's set holds yet, leaves the limits of
-- its user and of the queue kept, the new job counted.
pub submit_job-IsWithinLimits :
    (i : Intake) (s : Submission) (d d' : Desk) (j : Job)
    → submit_job i s d ≡ (Outcome.accepts j, d')
    → j.deduplicated ≡ false
    → exists_where (λ (x : Slot). x.job == i.fresh) d.slots ≡ false
    → IsWithinLimits i s d'
submit_job-IsWithinLimits i s d d' j e fresh none_of =
    let a = drop_request s.user s.request d in
    let n = entered i s d d' j e fresh in
    let missing =
      ap (exists_where (λ (x : Slot). x.job == i.fresh)) (drop_request-slots s.user s.request d)
      ∙ none_of in
    rw n.desk (record {
      rate = entered-rates i s a n.timely;
      active = entered-active i s a missing n.few;
      queue = entered-queue i s a n.room;
    })
